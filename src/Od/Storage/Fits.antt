-- ===== src/Od/Storage/Fits.antt =====
-- Which stored parameters a dictionary takes.
use powerlink_rs.Common.{
  ℕ, ◌≡◌, refl, Bool, true, false, ◌&&◌, ◌==◌, if◌then◌else◌, Option, none, some, Result, ok, err,
  Option-cases, Bool-cases, Result-cases, inl, inr, ==_iff, arith,
}
use powerlink_rs.Common.BTree
use powerlink_rs.Od.Value.{ObjectValue, same_type}
use powerlink_rs.Od.Entry.{Object, variable, array, rec}
use powerlink_rs.Od.Dictionary.{
  ObjectDictionary, read, read_object, read_object_value, element, write_element, write_count,
  write_object, write_entry, write_internal, is_pdo_mapping_index0,
}
use powerlink_rs.Od.ReadWrite.{
  stores, is_variable, stores_at, read-write_internal, write_internal-err,
}

abbrev pub is_ok : {A E : Type 0} → Result A E → Bool
is_ok (ok a) = true
is_ok (err e) = false

-- Whether an address that reads this takes a value: it holds one of its type.
abbrev pub takes : Option ObjectValue → ObjectValue → Bool
takes none v = false
takes (some w) v = same_type w v

write_object-takes :
    (m : Bool) (o : Object) (s : ℕ) (v : ObjectValue)
    → stores o s ≡ true
    → is_ok (write_object m o s v) ≡ takes (read_object_value o s) v
unfolding write_object read_object_value write_element
write_object-takes m (variable w) s v h = elim (Bool-cases (s == 0)) [
  | inl z ↦ elim (Bool-cases (same_type w v)) [
    | inl r ↦ rw (write_object, read_object_value, z, r) refl
    | inr r ↦ rw (write_object, read_object_value, z, r) refl
  ]
  | inr z ↦ rw (write_object, read_object_value, z) refl
]
write_object-takes m (array vs) s v h = elim (Option-cases (element vs s)) [
  | inl q ↦ ground (arith, q)
  | inr (w, q) ↦ elim (Bool-cases (same_type w v)) [
    | inl r ↦ ground (arith, q, r)
    | inr r ↦ ground (arith, q, r)
  ]
]
write_object-takes m (rec vs) s v h = elim (Option-cases (element vs s)) [
  | inl q ↦ ground (arith, q)
  | inr (w, q) ↦ elim (Bool-cases (same_type w v)) [
    | inl r ↦ ground (arith, q, r)
    | inr r ↦ ground (arith, q, r)
  ]
]

write_object-is_variable :
    (m : Bool) (o o' : Object) (s : ℕ) (v : ObjectValue)
    → write_object m o s v ≡ ok o'
    → is_variable o' ≡ is_variable o
unfolding write_object
write_object-is_variable m (variable w) o' s v e = ground arith
write_object-is_variable m (array vs) o' s v e = elim (Bool-cases (s == 0)) [
  | inl z ↦ elim (Result-cases (write_count m v)) [
    | inl (u, q) ↦ ground (arith, z, q)
    | inr (x, q) ↦ absurd (ground (arith, z, q))
  ]
  | inr z ↦ elim (Result-cases (write_element vs s v)) [
    | inl (ws, q) ↦ ground (arith, z, q)
    | inr (x, q) ↦ absurd (ground (arith, z, q))
  ]
]
write_object-is_variable m (rec vs) o' s v e = elim (Bool-cases (s == 0)) [
  | inl z ↦ elim (Result-cases (write_count m v)) [
    | inl (u, q) ↦ ground (arith, z, q)
    | inr (x, q) ↦ absurd (ground (arith, z, q))
  ]
  | inr z ↦ elim (Result-cases (write_element vs s v)) [
    | inl (ws, q) ↦ ground (arith, z, q)
    | inr (x, q) ↦ absurd (ground (arith, z, q))
  ]
]

module _ {S : Type 0} where
  -- A write without a test of the access succeeds where a value of the type is stored.
  write_internal-takes :
      (od : ObjectDictionary S) (i s : ℕ) (v : ObjectValue)
      → stores_at od i s ≡ true
      → is_ok (write_internal od i s v false).0 ≡ takes (read od i s) v
  unfolding write_internal write_entry read stores_at read_object
  write_internal-takes od i s v h = elim (Option-cases (BTree.get i od.entries)) [
    | inl q ↦ absurd (ground (arith, q))
    | inr (e, q) ↦ elim (Result-cases (write_object (is_pdo_mapping_index0 i s) e.object s v)) [
      | inl (o, r) ↦ ground (
        arith,
        q,
        r,
        write_object-takes (is_pdo_mapping_index0 i s) e.object s v (ground (arith, q)),
      )
      | inr (x, r) ↦ ground (
        arith,
        q,
        r,
        write_object-takes (is_pdo_mapping_index0 i s) e.object s v (ground (arith, q)),
      )
    ]
  ]

  -- Whether an address stores a value and holds one of this type.
  unfoldable pub fits : ObjectDictionary S → ℕ → ℕ → ObjectValue → Bool
  unfolding stores_at read
  fits od i s v = stores_at od i s && takes (read od i s) v

  -- One stored parameter.
  pub read-write_internal_fits :
      (od : ObjectDictionary S) (i s : ℕ) (v : ObjectValue) (j t : ℕ)
      → read (write_internal od i s v false).1 j t
        ≡ (if (j == i) && (t == s && fits od i s v) then some v else read od j t)
  unfolding fits
  read-write_internal_fits od i s v j t = elim (Bool-cases (stores_at od i s)) [
    | inl st ↦
        let success = write_internal-takes od i s v st in
        elim (Result-cases (write_internal od i s v false).0) [
          | inl (u, q) ↦ ground (arith, st, q, success, read-write_internal od i s v false q j t)
          | inr (x, q) ↦ ground (arith, st, q, success, write_internal-err od i s v false x q)
        ]
    | inr st ↦ elim (Result-cases (write_internal od i s v false).0) [
      | inl (u, q) ↦ ground (arith, st, q, read-write_internal od i s v false q j t)
      | inr (x, q) ↦ ground (arith, st, q, write_internal-err od i s v false x q)
    ]
  ]

  -- A write does not change where values are stored.
  pub stores_at-write_internal :
      (od : ObjectDictionary S) (i s : ℕ) (v : ObjectValue) (j t : ℕ)
      → stores_at (write_internal od i s v false).1 j t ≡ stores_at od j t
  unfolding write_internal write_entry stores_at read_object
  stores_at-write_internal od i s v j t = elim (Option-cases (BTree.get i od.entries)) [
    | inl q ↦ rw (write_internal, q) refl
    | inr (e, q) ↦ elim (Result-cases (write_object (is_pdo_mapping_index0 i s) e.object s v)) [
      | inr (x, r) ↦ ground (arith, q, r)
      | inl (o, r) ↦
          let kind = write_object-is_variable (is_pdo_mapping_index0 i s) e.object o s v r in
          elim (Bool-cases (j == i)) [
            | inl z ↦
                let same : j ≡ i = (==_iff j i).0 z in
                ground (
                  arith,
                  q,
                  r,
                  kind,
                  same,
                  BTree.get-put_self i (record e { object = o }) e od.entries q,
                )
            | inr z ↦
                ground (arith, q, r, BTree.get-put_ne j i (record e { object = o }) od.entries z)
          ]
    ]
  ]
