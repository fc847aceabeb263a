-- ===== src/Od/ReadWrite.antt =====
-- What a read returns after an internal write.
use powerlink_rs.Common.{
  ℕ, ◌-◌, ◌≡◌, Bool, true, false, ◌&&◌, ◌||◌, not, ◌==◌, if◌then◌else◌, none, some, List, length,
  set, Option-cases, Bool-cases, ==_iff, Result-cases, inl, inr, get_elem?-set, length-set, ok, err,
  arith,
}
use powerlink_rs.Common.BTree
use powerlink_rs.Hal.{PowerlinkError}
use powerlink_rs.Od.Value.{ObjectValue, same_type}
use powerlink_rs.Od.Entry.{Object, variable, array, rec, ObjectEntry}
use powerlink_rs.Od.Dictionary.{
  ObjectDictionary, element, read_object_value, write_element, write_count, write_object,
  read_object, write_entry, is_pdo_mapping_index0, read, write_internal,
}

abbrev pub is_variable : Object → Bool
is_variable (variable v) = true
is_variable _ = false

-- A write to sub-index 0 of an array or record stores nothing.
abbrev pub stores : Object → ℕ → Bool
stores o sub = not (sub == 0) || is_variable o

-- A successful write of an element replaced one of the same type.
write_element-eq-ok :
    (vs ws : List ObjectValue) (s : ℕ) (v : ObjectValue)
    → write_element vs s v ≡ ok ws
    → (w : ObjectValue) × (element vs s ≡ some w) × (same_type w v ≡ true) × (ws ≡ set vs (s - 1) v)
unfolding write_element
write_element-eq-ok vs ws s v e = elim (Option-cases (element vs s)) [
  | inl n ↦ absurd (ground (arith, n))
  | inr (w, q) ↦ (w, q, ground arith, ground arith)
]

read-write_element :
    (vs ws : List ObjectValue) (s t : ℕ) (v : ObjectValue)
    → (s == 0) ≡ false
    → (t == 0) ≡ false
    → write_element vs s v ≡ ok ws
    → element ws t ≡ (if t == s then some v else element vs t)
read-write_element vs ws s t v hs ht e =
    let (w, q, _, r) = write_element-eq-ok vs ws s v e in
    ground (arith, r, get_elem?-set vs (s - 1) (t - 1) v w q)

length-write_element :
    (vs ws : List ObjectValue) (s : ℕ) (v : ObjectValue)
    → write_element vs s v ≡ ok ws
    → length ws ≡ length vs
length-write_element vs ws s v e =
    let (w, _, _, r) = write_element-eq-ok vs ws s v e in rw r (length-set vs (s - 1) v)

-- What an object reads after a successful write: the value where it is stored, and what it read
-- before elsewhere.
read-write_object :
    (m : Bool) (o o' : Object) (s t : ℕ) (v : ObjectValue)
    → write_object m o s v ≡ ok o'
    → read_object_value o' t ≡ (if t == s && stores o s then some v else read_object_value o t)
unfolding write_object read_object_value
read-write_object m (variable w) o' s t v e = ground arith
read-write_object m (array vs) o' s t v e = elim (Bool-cases (s == 0)) [
  | inl z ↦ elim (Result-cases (write_count m v)) [
    | inl (u, q) ↦ ground (arith, z, q)
    | inr (x, q) ↦ ground (arith, z, q)
  ]
  | inr nz ↦ elim (Result-cases (write_element vs s v)) [
    | inl (ws, q) ↦
        ground (arith, nz, q, read-write_element vs ws s t v nz, length-write_element vs ws s v q)
    | inr (x, q) ↦ ground (arith, nz, q)
  ]
]
read-write_object m (rec vs) o' s t v e = elim (Bool-cases (s == 0)) [
  | inl z ↦ elim (Result-cases (write_count m v)) [
    | inl (u, q) ↦ ground (arith, z, q)
    | inr (x, q) ↦ ground (arith, z, q)
  ]
  | inr nz ↦ elim (Result-cases (write_element vs s v)) [
    | inl (ws, q) ↦
        ground (arith, nz, q, read-write_element vs ws s t v nz, length-write_element vs ws s v q)
    | inr (x, q) ↦ ground (arith, nz, q)
  ]
]

-- A successful write to an entry keeps its metadata and stores as `write_object` does.
write_entry-eq-ok :
    (i s : ℕ) (v : ObjectValue) (c : Bool) (entry entry' : ObjectEntry)
    → write_entry i s v c entry ≡ ok entry'
    → (o : Object) × (write_object (is_pdo_mapping_index0 i s) entry.object s v ≡ ok o)
      × (entry' ≡ record entry { object = o })
unfolding write_entry
write_entry-eq-ok i s v c entry entry' e =
    elim (Result-cases (write_object (is_pdo_mapping_index0 i s) entry.object s v)) [
      | inl (o, q) ↦ (o, q, ground (arith, q))
      | inr (x, q) ↦ absurd (ground (arith, q))
    ]

module _ {S : Type 0} where
  read-write_at :
      (od : ObjectDictionary S) (i s j t : ℕ) (v : ObjectValue) (c : Bool)
      (entry entry' : ObjectEntry)
      → BTree.get i od.entries ≡ some entry
      → write_entry i s v c entry ≡ ok entry'
      → read (record od { entries = BTree.put i entry' od.entries }) j t
        ≡ (if (j == i) && (t == s && stores entry.object s) then some v else read od j t)
  unfolding read
  read-write_at od i s j t v c entry entry' g w = elim (Bool-cases (j == i)) [
    | inl q ↦
        let e : j ≡ i = (==_iff j i).0 q in
        let (o, p, r) = write_entry-eq-ok i s v c entry entry' w in
        ground (
          arith,
          e,
          g,
          r,
          BTree.get-put_self i entry' entry od.entries g,
          read-write_object (is_pdo_mapping_index0 i s) entry.object o s t v p,
        )
    | inr q ↦ ground (arith, q, BTree.get-put_ne j i entry' od.entries q)
  ]

  -- Whether a write at this address stores a value: a variable, or an element.
  unfoldable pub stores_at : ObjectDictionary S → ℕ → ℕ → Bool
  unfolding read_object
  stores_at od i s = elim (read_object od i) [ none ↦ false | some o ↦ stores o s ]

  -- A write that succeeds makes its address read the value, where a value is stored there, and
  -- leaves what every other address reads.
  pub read-write_internal :
      (od : ObjectDictionary S) (i s : ℕ) (v : ObjectValue) (c : Bool)
      → (write_internal od i s v c).0 ≡ ok tt
      → (j t : ℕ)
      → read (write_internal od i s v c).1 j t
        ≡ (if (j == i) && (t == s && stores_at od i s) then some v else read od j t)
  unfolding write_internal stores_at
  read-write_internal od i s v c h j t = elim (Option-cases (BTree.get i od.entries)) [
    | inl q ↦ absurd (ground (arith, q))
    | inr (entry, q) ↦ elim (Result-cases (write_entry i s v c entry)) [
      | inl (entry', w) ↦ ground (arith, q, w, read-write_at od i s j t v c entry entry' q w)
      | inr (y, w) ↦ absurd (ground (arith, q, w))
    ]
  ]

  -- A write that fails, for whatever reason, leaves the dictionary as it was.
  pub write_internal-err :
      (od : ObjectDictionary S) (i s : ℕ) (v : ObjectValue) (c : Bool) (x : PowerlinkError)
      → (write_internal od i s v c).0 ≡ err x
      → (write_internal od i s v c).1 ≡ od
  unfolding write_internal
  write_internal-err od i s v c x h = elim (Option-cases (BTree.get i od.entries)) [
    | inl q ↦ ground (arith, q)
    | inr (entry, q) ↦ elim (Result-cases (write_entry i s v c entry)) [
      | inl (entry', w) ↦ ground (arith, q, w)
      | inr (y, w) ↦ ground (arith, q, w)
    ]
  ]
