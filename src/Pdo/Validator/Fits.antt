-- ===== src/Pdo/Validator/Fits.antt =====
-- What a validated mapping promises.
use powerlink_rs.Common.{
  ℕ, zero, suc, ◌*◌, ◌≤◌, ◌≡◌, refl, ◌↔◌, inl, inr, max, true, ◌||◌, some, List, get_elem?, ok,
  arith, Option-cases, Result-cases,
}
use powerlink_rs.Od.Value.{ObjectValue}
use powerlink_rs.Od.Entry.{array}
use powerlink_rs.Od.Dictionary.{ObjectDictionary, as_u64, read_object}
use powerlink_rs.Pdo.Validator.{
  end_pos_bits, required_bits, is_tpdo, is_rpdo, check_limit, payload_limit, validate_pdo_mapping,
}

-- The entries at `count` positions from `i` on are there, and each ends within `bits`.
unfoldable pub Fits : List ObjectValue → ℕ → ℕ → ℕ → Type 0
Fits entries bits zero i = Unit {0}
Fits entries bits (suc count) i =
    (raw : ℕ) × (as_u64 (get_elem? entries i) ≡ some raw)
    × (end_pos_bits raw ≤ bits)
    × Fits entries bits count (suc i)

max-le : (a b c : ℕ) → a ≤ c → b ≤ c → max a b ≤ c
max-le a b c h k = omega arith

le-max : (a b c : ℕ) → max a b ≤ c → (a ≤ c) × (b ≤ c)
le-max a b c h = (omega arith, omega arith)

Fits-weaken :
    (entries : List ObjectValue) (low high count i : ℕ)
    → low ≤ high
    → Fits entries low count i
    → Fits entries high count i
unfolding Fits
Fits-weaken entries low high zero i h f = tt
Fits-weaken entries low high (suc count) i h (raw, e, u, f) =
    (raw, e, le_trans _ _ _ u h, Fits-weaken entries low high count (suc i) h f)
  where
    le_trans : (a b c : ℕ) → a ≤ b → b ≤ c → a ≤ c
    le_trans a b c p q = omega arith

required_bits-Fits :
    (entries : List ObjectValue) (count i most m : ℕ)
    → required_bits entries count i most ≡ ok m
    → (most ≤ m) × Fits entries m count i
unfolding required_bits Fits
required_bits-Fits entries zero i most m h = (ground arith, tt)
required_bits-Fits entries (suc count) i most m h =
    elim (Option-cases (as_u64 (get_elem? entries i))) [
      | inl n ↦ absurd (ground (arith, n, h))
      | inr (raw, e) ↦
          let (below, fits) =
            required_bits-Fits entries count (suc i) (max most (end_pos_bits raw)) m
              (ground (arith, e, h)) in
          let (low, end_low) = le-max most (end_pos_bits raw) m below in
          (low, (raw, e, end_low, fits))
    ]

Fits-required_bits :
    (entries : List ObjectValue) (bits count i most : ℕ)
    → most ≤ bits
    → Fits entries bits count i
    → (m : ℕ) × (required_bits entries count i most ≡ ok m) × (m ≤ bits)
unfolding required_bits Fits
Fits-required_bits entries bits zero i most l f = (most, refl, l)
Fits-required_bits entries bits (suc count) i most l (raw, e, u, f) =
    let (m, q, v) =
      Fits-required_bits entries bits count (suc i) (max most (end_pos_bits raw))
        (max-le most (end_pos_bits raw) bits l u) f in
    (m, rw (required_bits, e) q, v)

check_limit_iff : (limit m : ℕ) → (check_limit limit m ≡ ok tt) ↔ (m ≤ limit * 8)
check_limit_iff limit m = (λ h. ground arith, λ h. ground arith)

module _ {S : Type 0} where
  -- Activating a mapping of a PDO that is an array passes exactly if all the entries to activate
  -- are there as 64-bit numbers and each ends within the payload limit of its direction.
  pub validate_pdo_mapping_iff :
      (od : ObjectDictionary S) (index count : ℕ) (entries : List ObjectValue)
      → (is_tpdo index || is_rpdo index) ≡ true
      → read_object od index ≡ some (array entries)
      → (validate_pdo_mapping od index (suc count) ≡ ok tt)
        ↔ Fits entries (payload_limit od index * 8) (suc count) 0
  unfolding validate_pdo_mapping
  validate_pdo_mapping_iff od index count entries p o = (
    λ h. elim (Result-cases (required_bits entries (suc count) 0 0)) [
      | inl (m, q) ↦
          let within =
            (check_limit_iff (payload_limit od index) m).0 (ground (arith, p, o, q, h)) in
          Fits-weaken entries m (payload_limit od index * 8) (suc count) 0 within
            (required_bits-Fits entries (suc count) 0 0 m q).1
      | inr (x, q) ↦ absurd (ground (arith, p, o, q, h))
    ],
    λ f.
        let (m, q, v) =
          Fits-required_bits entries (payload_limit od index * 8) (suc count) 0 0 (omega arith) f in
        ground (arith, p, o, q, (check_limit_iff (payload_limit od index) m).1 v),
  )
