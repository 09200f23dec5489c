-- ===== src/GenericList/Gone.antt =====
-- `destroy_list_node` of libs/generic_linked_list.c on a node that is in the list, or that was never
-- put into it.
use mathlib.Core.Path.{subst}
use concurrent_server.Base.{
  ℕ, ◌≡◌, ◌≢◌, inl, inr, refl, ap, ◌∙◌, sym, Bool-cases, true, false, none, some, [], ◌∷◌, ◌++◌, ok,
  ◌==◌, arith, ne→==,
}
use concurrent_server.Heap.{Ptr, null, Store, load-ok, update_self, update_ne}
use concurrent_server.Heap.Seg.{Cells, has, has-append, uncons, eq_of_nil, frame-update}
use concurrent_server.Heap.Datum.{datum_of, datum_of-without}
use concurrent_server.GenericList.{ListNode, GenericList, destroy_list_node}
use concurrent_server.GenericList.Push.{cell, IsLinked}
use concurrent_server.GenericList.Unlink.{dropped, destroy_node-ok}
use concurrent_server.GenericList.Remove.{destroy_list_node-erase}

-- The node `a` is destroyed: the list is as before without it, and nothing else changes that is not in
-- the list.
pub record Gone (s : Store ListNode) (l : GenericList) (xs : Cells) (a : Ptr) : Type 0 where
  pub before : Ptr
  pub left : Cells
  pub list : GenericList
  pub memory : Store ListNode
  pub run : destroy_list_node l a s ≡ ok (list, memory)
  pub linked : IsLinked before memory list left
  pub first : left ≡ [] → before ≡ null
  pub members : (c : Ptr) → c ≢ a → has c left ≡ has c xs
  pub same_data : (c : Ptr) → c ≢ a → datum_of c left ≡ datum_of c xs
  pub freed : memory.cells a ≡ none
  pub elsewhere : (c : Ptr) → c ≢ a → has c xs ≡ false → memory.cells c ≡ s.cells c

-- Where a node stands.
pub record Place (a : Ptr) (xs : Cells) : Type 0 where
  pub front : Cells
  pub datum : ℕ
  pub back : Cells
  pub same : xs ≡ front ++ (a, datum) ∷ back

pub place : (a : Ptr) (xs : Cells) → has a xs ≡ true → Place a xs
place a [] i = absurd (cc i)
place a ((b, v) ∷ xs) i = elim (Bool-cases (a == b)) [
  | inl e ↦ record {
    front = [];
    datum = v;
    back = xs;
    same = let here : b ≡ a = ground (arith, e) in ap (λ c. (c, v) ∷ xs) here;
  }
  | inr e ↦
      let p = place a xs (ground (arith, i, e)) in
      record {
        front = (b, v) ∷ p.front;
        datum = p.datum;
        back = p.back;
        same = ap (λ ys. (b, v) ∷ ys) p.same;
      }
]

has-without : (c a v : ℕ) (xs ys : Cells) → c ≢ a → has c (xs ++ ys) ≡ has c (xs ++ (a, v) ∷ ys)
has-without c a v xs ys ne =
    has-append c xs ys ∙ ground (arith, ne) ∙ sym (has-append c xs ((a, v) ∷ ys))

module _ (s : Store ListNode) (l : GenericList) (before : Ptr) where
  pub destroy_list_node-listed :
      (xs : Cells) (a : Ptr) → IsLinked before s l xs → has a xs ≡ true → Gone s l xs a
  destroy_list_node-listed xs a is i =
      let p = place a xs i in
      let (before', l', s', run, linked, first, freed, elsewhere, _) =
        destroy_list_node-erase s l before p.front a p.datum p.back
          (subst (IsLinked before s l) p.same is) in
      record {
        before = before';
        left = p.front ++ p.back;
        list = l';
        memory = s';
        run = run;
        linked = linked;
        first = first;
        members = λ c ne. has-without c a p.datum p.front p.back ne ∙ ap (has c) (sym p.same);
        same_data =
            λ c ne. datum_of-without c a p.datum p.front p.back ne ∙ ap (datum_of c) (sym p.same);
        freed = freed;
        elsewhere = λ c ne out. elsewhere c (ap (has c) (sym p.same) ∙ out);
      }

  head_ne :
      (xs : Cells) (a : Ptr) → IsLinked before s l xs → has a xs ≡ false → a ≢ null → a ≢ l.head
  head_ne [] a is out ne e = ne (e ∙ eq_of_nil cell is.chain)
  head_ne ((b, v) ∷ xs) a is out ne e = ground (arith, e, (uncons cell is.chain).same, out)

  run_loose :
      (a d : ℕ)
      → a ≢ l.head
      → a ≢ null
      → s.cells a ≡ some (cell null null d)
      → destroy_list_node l a s ≡ ok (l, dropped s a d)
  unfolding destroy_list_node
  run_loose a d off ne here =
      rw (load-ok s here ne, ne→== _ _ off, destroy_node-ok s a null null d here ne)

  pub destroy_list_node-loose :
      (xs : Cells) (a d : ℕ)
      → IsLinked before s l xs
      → (xs ≡ [] → before ≡ null)
      → has a xs ≡ false
      → a ≢ null
      → s.cells a ≡ some (cell null null d)
      → Gone s l xs a
  destroy_list_node-loose xs a d is first out ne here = record {
    before = before;
    left = xs;
    list = l;
    memory = dropped s a d;
    run = run_loose a d (head_ne xs a is out ne) ne here;
    linked = record {
      chain = frame-update cell a none is.chain out;
      tail = is.tail;
      list_len = is.list_len;
    };
    first = first;
    members = λ c _. refl;
    same_data = λ c _. refl;
    freed = update_self s.cells a none;
    elsewhere = λ c off _. update_ne s.cells a none c off;
  }
