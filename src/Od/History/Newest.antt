-- ===== src/Od/History/Newest.antt =====
-- The error history holds the newest errors.
use powerlink_rs.Common.{
  ℕ, zero, suc, ◌≤◌, ◌≡◌, refl, ap, sym, ◌∙◌, ltb, some, List, [], ◌∷◌, length, take, take-all,
  length-take, Option-cases, Bool-cases, inl, inr, arith,
}
use powerlink_rs.Common.BTree
use powerlink_rs.Od.Value.{ObjectValue, domain}
use powerlink_rs.Od.Entry.{Object, array, ObjectEntry}
use powerlink_rs.Od.Dictionary.{ObjectDictionary, read_object}
use powerlink_rs.Dll.ErrorEntry.{ErrorEntry, serialize_entry}
use powerlink_rs.Od.History.{push_history, write_history_object, write_error_to_history}

-- The values of some errors, the last first, before others.
unfoldable pub newest_first : List ErrorEntry → List ObjectValue → List ObjectValue
newest_first [] vs = vs
newest_first (e ∷ es) vs = newest_first es (domain (serialize_entry e) ∷ vs)

-- Some errors, one after the other.
unfoldable pub write_errors :
    {S : Type 0} → List ErrorEntry → ObjectDictionary S → ObjectDictionary S
unfolding write_error_to_history
write_errors [] od = od
write_errors (e ∷ es) od = write_errors es (write_error_to_history e od)

length-suc : (v : ObjectValue) (vs : List ObjectValue) → length (v ∷ vs) ≡ suc (length vs)
length-suc v vs = refl

take-take : (n : ℕ) (vs : List ObjectValue) → take n (take n vs) ≡ take n vs
take-take zero vs = refl
take-take (suc n) [] = refl
take-take (suc n) (v ∷ vs) = ap (λ l. v ∷ l) (take-take n vs)

take-take-suc : (n : ℕ) (vs : List ObjectValue) → take n (take (suc n) vs) ≡ take n vs
take-take-suc zero vs = refl
take-take-suc (suc n) [] = refl
take-take-suc (suc n) (v ∷ vs) = ap (λ l. v ∷ l) (take-take-suc n vs)

-- Cutting first or afterwards is the same.
take-newest_first :
    (n : ℕ) (es : List ErrorEntry) (vs : List ObjectValue)
    → take n (newest_first es (take n vs)) ≡ take n (newest_first es vs)
unfolding newest_first
take-newest_first n [] vs = take-take n vs
take-newest_first (suc n) (e ∷ es) vs =
    let v = domain (serialize_entry e) in
    sym (take-newest_first (suc n) es (v ∷ take (suc n) vs))
    ∙ ap (λ l. take (suc n) (newest_first es (v ∷ l))) (take-take-suc n vs)
    ∙ take-newest_first (suc n) es (v ∷ vs)
take-newest_first zero (e ∷ es) vs = refl

push_history-take :
    (v : ObjectValue) (vs : List ObjectValue)
    → length vs ≤ 254
    → push_history v vs ≡ take 254 (v ∷ vs)
unfolding push_history
push_history-take v vs h = elim (Bool-cases (ltb 254 (length (v ∷ vs)))) [
  | inl q ↦
      let full : length (v ∷ vs) ≡ 255 = ground (arith, length-suc v vs) in
      rw (push_history, q, full) refl
  | inr q ↦ rw (push_history, q) (sym (take-all 254 (v ∷ vs) (ground (arith, length-suc v vs))))
]

module _ {S : Type 0} where
  write_error_to_history-array :
      (e : ErrorEntry) (od : ObjectDictionary S) (entry : ObjectEntry) (vs : List ObjectValue)
      → BTree.get 0x1003 od.entries ≡ some entry
      → entry.object ≡ array vs
      → read_object (write_error_to_history e od) 0x1003
        ≡ some (array (push_history (domain (serialize_entry e)) vs))
  unfolding write_error_to_history write_history_object read_object
  write_error_to_history-array e od entry vs g o =
      let entry' = record entry { object = write_history_object e entry.object } in
      rw
        (
          write_error_to_history,
          g,
          read_object,
          BTree.get-put_self 0x1003 entry' entry od.entries g,
          o,
        )
        refl

  get-read_object :
      (od : ObjectDictionary S) (o : Object)
      → read_object od 0x1003 ≡ some o
      → (entry : ObjectEntry) × (BTree.get 0x1003 od.entries ≡ some entry) × (entry.object ≡ o)
  unfolding read_object
  get-read_object od o h = elim (Option-cases (BTree.get 0x1003 od.entries)) [
    | inl q ↦ absurd (ground (arith, q))
    | inr (entry, q) ↦ (entry, q, ground (arith, q))
  ]

  -- If object 0x1003 is an array of at most 254 values, then after any errors it is the array of
  -- the newest 254 of their entries and the values, the last error first.
  pub write_errors-newest :
      (es : List ErrorEntry) (od : ObjectDictionary S) (vs : List ObjectValue)
      → read_object od 0x1003 ≡ some (array vs)
      → length vs ≤ 254
      → read_object (write_errors es od) 0x1003 ≡ some (array (take 254 (newest_first es vs)))
  unfolding write_errors newest_first
  write_errors-newest [] od vs h l = rw (take-all 254 vs l) h
  write_errors-newest (e ∷ es) od vs h l =
      let v = domain (serialize_entry e) in
      let (entry, g, o) = get-read_object od (array vs) h in
      let one : read_object (write_error_to_history e od) 0x1003
          ≡ some (array (take 254 (v ∷ vs))) =
        write_error_to_history-array e od entry vs g o
        ∙ ap (λ l. some (array l)) (push_history-take v vs l) in
      write_errors-newest es (write_error_to_history e od) (take 254 (v ∷ vs)) one
        (omega (arith, length-take 254 (v ∷ vs)))
      ∙ ap (λ l. some (array l)) (take-newest_first 254 es (v ∷ vs))
