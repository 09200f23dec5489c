-- ===== src/Recyclable/Pool.antt =====
-- Who holds the fields of data_structs/recyclable_fields_array.c: no two hold the same one, and nothing
-- keeps the indices within the array.
use mathlib.Core.Path.{subst}
use concurrent_server.Base.{
  ℕ, zero, suc, ◌+◌, ◌<◌, ◌≤◌, ◌≡◌, ◌∙◌, sym, refl, ap, none, List, [], ◌∷◌, ◌&&◌, ◌%◌, ◌^◌, leb,
  pos, to_int, to_int-pos, to_unsigned, if◌then◌else◌, get_elem?, replicate, arith,
}
use concurrent_server.Recyclable.{
  NormalQueue, RecyclableArray, init_recyclable_array_object, set_field_used, set_field_reusable,
  get_usable_field_index,
}
use concurrent_server.Recyclable.Laws.{IsFifo, count, count-snoc, count-erase}

beyond : (n : ℕ) → get_elem? {A = ℕ} (replicate n 0) n ≡ none
beyond zero = refl
beyond (suc n) = beyond n

module _ (Q : NormalQueue) where
  -- Fields taken in a row, and marked as used.
  abbrev pub take_all : ℕ → RecyclableArray Q → RecyclableArray Q
  take_all zero r = r
  take_all (suc n) r =
      let (i, r') = get_usable_field_index Q (take_all n r) in set_field_used Q (to_unsigned i) r'

module _ (Q : NormalQueue) (laws : IsFifo Q) where
  abbrev pub used : RecyclableArray Q → List ℕ
  used r = laws.view r.indeces_of_used_fields

  abbrev pub reusable : RecyclableArray Q → List ℕ
  reusable r = laws.view r.indeces_of_reusable_fields

  abbrev pub given : ℕ → ℕ → ℕ
  given len x = if leb 2 x && leb x len then 1 else 0

  -- Every index from 2 to the length is in use or reusable, once, and no other is.
  pub record IsPool (r : RecyclableArray Q) : Type 0 where
    pub each : (x : ℕ) → count x (used r) + count x (reusable r) ≡ given r.list_length x
    pub one : 1 ≤ r.list_length

  init-IsPool : (max_conn : ℕ) → IsPool (init_recyclable_array_object Q max_conn)
  unfolding init_recyclable_array_object
  init-IsPool max_conn = record { each = λ x. ground (arith, laws.created); one = omega arith }

  -- An index that nobody holds is returned, and the array is sound again once it is marked as used.
  abbrev pub Unused : RecyclableArray Q → Type 0
  Unused r =
      (i : ℕ) × (r' : RecyclableArray Q) × (get_usable_field_index Q r ≡ (pos i, r'))
      × (count i (used r) ≡ 0)
      × (2 ≤ i)
      × (i ≤ r'.list_length)
      × IsPool (set_field_used Q i r')

  Unused-new :
      (r : RecyclableArray Q) → IsPool r → r.list_length + 1 < 2 ^ 31 → reusable r ≡ [] → Unused r
  unfolding get_usable_field_index set_field_used
  Unused-new r is short none_left =
      let n = r.list_length + 1 in
      let same : n % 2 ^ 32 ≡ n = omega (arith, short) in
      let e = laws.empty r.indeces_of_reusable_fields none_left in
      (
        n,
        record r { list_length = n },
        rw (e, same, to_int-pos n short) refl,
        ground (arith, is.each n),
        omega (arith, is.one),
        omega arith,
        record {
          each = λ x.
              rw (laws.enqueued r.indeces_of_used_fields n, count-snoc x n (used r))
                (ground (arith, is.each x, none_left, is.one));
          one = omega arith;
        },
      )

  Unused-again :
      (r : RecyclableArray Q) (i : ℕ) (rest : List ℕ)
      → IsPool r
      → r.list_length + 1 < 2 ^ 31
      → reusable r ≡ i ∷ rest
      → Unused r
  unfolding get_usable_field_index set_field_used
  Unused-again r i rest is short some_left =
      let e = laws.filled r.indeces_of_reusable_fields i rest some_left in
      let (n, q', run, same, left) = laws.dequeued r.indeces_of_reusable_fields i rest some_left in
      let here : count i (used r) + suc (count i rest) ≡ given r.list_length i =
        ground (arith, is.each i, some_left) in
      (
        i,
        record r { indeces_of_reusable_fields = q' },
        ground (arith, e, run, same, to_int-pos i (ground (arith, here, short))),
        ground (arith, here),
        ground (arith, here),
        ground (arith, here),
        record {
          each = λ x.
              rw (laws.enqueued r.indeces_of_used_fields i, count-snoc x i (used r), left)
                (ground (arith, is.each x, some_left));
          one = is.one;
        },
      )

  -- A field that is in use may be used again after `set_field_reusable`.
  set_field_reusable-IsPool :
      (r : RecyclableArray Q) (i : ℕ)
      → IsPool r
      → 0 < count i (used r)
      → IsPool (set_field_reusable Q i r)
  unfolding set_field_reusable
  set_field_reusable-IsPool r i is held = record {
    each = λ x.
        rw
          (
            laws.removed r.indeces_of_used_fields i,
            laws.enqueued r.indeces_of_reusable_fields i,
            count-snoc x i (reusable r),
          )
          (omega (arith, is.each x, count-erase x i (used r) held));
    one = is.one;
  }

  -- What the users of the array do: they take a field and mark it as used, or give one back that is in
  -- use. The length stays below 2 ^ 31.
  pub data Step (r : RecyclableArray Q) : RecyclableArray Q → Type 0 where
    takes :
        (i : ℕ) (r' : RecyclableArray Q)
        → r.list_length + 1 < 2 ^ 31
        → get_usable_field_index Q r ≡ (pos i, r')
        → Step r (set_field_used Q i r')
    returns : (i : ℕ) → 0 < count i (used r) → Step r (set_field_reusable Q i r)

  pub data Reach (r : RecyclableArray Q) : RecyclableArray Q → Type 0 where
    here : Reach r r
    next : {s t : RecyclableArray Q} → Reach r s → Step s t → Reach r t

  unused :
      (r : RecyclableArray Q) (xs : List ℕ)
      → reusable r ≡ xs
      → IsPool r
      → r.list_length + 1 < 2 ^ 31
      → Unused r
  unused r [] e is short = Unused-new r is short e
  unused r (i ∷ rest) e is short = Unused-again r i rest is short e

  Step-IsPool : {r t : RecyclableArray Q} → Step r t → IsPool r → IsPool t
  Step-IsPool {r} {t} (takes i r' short run) is =
      let (j, s, run', _, _, _, kept) = unused r (reusable r) refl is short in
      let same : pos j ≡ pos i = ap (λ p. p.0) (sym run' ∙ run) in
      let same' : j ≡ i = ground (arith, same) in
      subst (λ k. IsPool (set_field_used Q k r')) same'
        (subst (λ q. IsPool (set_field_used Q j q)) (ap (λ p. p.1) (sym run' ∙ run)) kept)
  Step-IsPool {r} {t} (returns i held) is = set_field_reusable-IsPool r i is held

  Reach-IsPool : {r t : RecyclableArray Q} → Reach r t → IsPool r → IsPool t
  Reach-IsPool here is = is
  Reach-IsPool (next {s} {t} reach step) is = Step-IsPool step (Reach-IsPool reach is)

  -- However the users take fields and give them back, from the start on: with a queue that is first in
  -- first out, and a length below 2 ^ 31, the next index is one from 2 to the length that nobody holds;
  -- and once it is marked as used, every index from 2 to the length is again in use or reusable, once.
  pub Reach-Unused :
      (max_conn : ℕ) (r : RecyclableArray Q)
      → Reach (init_recyclable_array_object Q max_conn) r
      → r.list_length + 1 < 2 ^ 31
      → Unused r
  Reach-Unused max_conn r reach short =
      unused r (reusable r) refl (Reach-IsPool reach (init-IsPool max_conn)) short

  one_more :
      (r : RecyclableArray Q)
      → reusable r ≡ []
      → let n = (r.list_length + 1) % 2 ^ 32 in
        get_usable_field_index Q r ≡ (to_int n, record r { list_length = n })
  unfolding get_usable_field_index
  one_more r left = rw (laws.empty r.indeces_of_reusable_fields left) refl

  -- The array after the first `n` calls, none of which found a field to use again.
  taken :
      (max_conn n : ℕ)
      → n + 1 < 2 ^ 31
      → let r = take_all Q n (init_recyclable_array_object Q max_conn) in
        (r.list_length ≡ n + 1) × (reusable r ≡ []) × (r.tid ≡ replicate max_conn 0)
  unfolding init_recyclable_array_object set_field_used
  taken max_conn zero short = (refl, laws.created, refl)
  taken max_conn (suc n) short =
      let (len, left, tid) = taken max_conn n (omega (arith, short)) in
      let run = one_more (take_all Q n (init_recyclable_array_object Q max_conn)) left in
      (rw (run, len) (omega (arith, short)), rw run left, rw run tid)

  -- When as many users as the array has fields, less two, hold one each, the next index that is
  -- returned is the number of fields: it is outside the array.
  pub take_all-overruns :
      (n : ℕ)
      → n + 2 < 2 ^ 31
      → let r = take_all Q n (init_recyclable_array_object Q (n + 2)) in
        (r' : RecyclableArray Q) × (get_usable_field_index Q r ≡ (pos (n + 2), r'))
        × (get_elem? r'.tid (n + 2) ≡ none)
  take_all-overruns n short =
      let (len, left, tid) = taken (n + 2) n (omega (arith, short)) in
      let r = take_all Q n (init_recyclable_array_object Q (n + 2)) in
      let size : (r.list_length + 1) % 2 ^ 32 ≡ n + 2 = omega (arith, len, short) in
      (
        record r { list_length = (r.list_length + 1) % 2 ^ 32 },
        one_more r left
            ∙ ap (λ i. (i, record r { list_length = (r.list_length + 1) % 2 ^ 32 }))
                (ap to_int size ∙ to_int-pos (n + 2) short),
        rw tid (beyond (n + 2)),
      )
