-- ===== src/Frame/Asnd/Trim.antt =====
-- What is read of an ASnd frame: a payload that may be padded loses the zeros at its end.
use powerlink_rs.Common.{
  false, ◌↔◌, ◌<◌, ok-injective, take-all, ◌⊎◌, length-take, ℕ, zero, suc, ◌+◌, ◌-◌, max, ◌≤◌, ◌≡◌,
  refl, ap, Bool, Bool-cases, inl, inr, length-append, length-replicate, append-nil, leb, ◌==◌,
  if◌then◌else◌, List, [], ◌∷◌, ◌++◌, length, take, replicate, ok, arith,
}
use powerlink_rs.Types.{asnd, message_type_code}
use powerlink_rs.Frame.Header.{deserialize_pl_header-pl_bytes, message_type_eq}
use powerlink_rs.Frame.Padded.{padding}
use powerlink_rs.Frame.Asnd.{
  ServiceId, service_code, service_try_from, AsndFrame, asnd_bytes, actual_len, read_asnd_payload,
  read_asnd, deserialize_asnd,
}

service_try_from-code : (s : ServiceId) → service_try_from (service_code s) ≡ ok s
unfolding service_try_from service_code
service_try_from-code s = ground arith

-- The payload without the zeros at its end.
unfoldable pub trim_zeros : List ℕ → List ℕ
unfolding actual_len
trim_zeros payload = take (actual_len payload) payload

actual_len-replicate : (n : ℕ) → actual_len (replicate n 0) ≡ 0
unfolding actual_len
actual_len-replicate zero = refl
actual_len-replicate (suc n) = rw (actual_len-replicate n) refl

actual_len-append : (xs : List ℕ) (n : ℕ) → actual_len (xs ++ replicate n 0) ≡ actual_len xs
unfolding actual_len
actual_len-append [] n = actual_len-replicate n
actual_len-append (x ∷ xs) n = rw (actual_len-append xs n) refl

actual_len-le : (xs : List ℕ) → actual_len xs ≤ length xs
unfolding actual_len
actual_len-le [] = omega arith
actual_len-le (x ∷ xs) = ground (arith, actual_len-le xs)

take-append_le : (n : ℕ) (xs ys : List ℕ) → n ≤ length xs → take n (xs ++ ys) ≡ take n xs
take-append_le zero xs ys l = refl
take-append_le (suc n) [] ys l = absurd (omega arith)
take-append_le (suc n) (x ∷ xs) ys l = ap (λ k. x ∷ k) (take-append_le n xs ys (omega arith))

-- Zeros behind a payload are trimmed with its own.
trim_zeros-append : (xs : List ℕ) (n : ℕ) → trim_zeros (xs ++ replicate n 0) ≡ trim_zeros xs
unfolding trim_zeros
trim_zeros-append xs n =
    rw (actual_len-append xs n)
      (take-append_le (actual_len xs) xs (replicate n 0) (actual_len-le xs))

-- What is read of a frame that was padded: a short payload loses the zeros at its end.
unfoldable pub asnd_as_read : AsndFrame → AsndFrame
unfolding trim_zeros
asnd_as_read f = record f {
  payload = if leb (length f.payload) 42 then trim_zeros f.payload else f.payload;
}

read_asnd_payload-padded :
    (a b c d : ℕ) (p : List ℕ)
    → read_asnd_payload (a ∷ b ∷ c ∷ d ∷ p ++ replicate (max (4 + length p) 46 - (4 + length p)) 0)
      ≡ (if leb (length p) 42 then trim_zeros p else p)
unfolding read_asnd_payload trim_zeros
read_asnd_payload-padded a b c d p =
    let n = max (4 + length p) 46 - (4 + length p) in
    let size : length (p ++ replicate n 0) ≡ length p + n =
      rw (length-append p (replicate n 0), length-replicate {A = ℕ} n 0) refl in
    elim (Bool-cases (leb (length p) 42)) [
      | inl q ↦ rw q (ground (arith, size, trim_zeros-append p n))
      | inr q ↦
          let none_left : n ≡ 0 = ground arith in ground (arith, size, none_left, append-nil p)
    ]

-- The frame from its bytes, with the padding behind them.
pub deserialize-asnd_bytes :
    (f : AsndFrame)
    → f.message_type ≡ asnd
    → deserialize_asnd f.eth_header
        (asnd_bytes f ++ (f.payload ++ padding (asnd_bytes f) f.payload))
      ≡ ok (asnd_as_read f)
unfolding deserialize_asnd read_asnd asnd_bytes message_type_eq message_type_code asnd_as_read
deserialize-asnd_bytes f is_asnd =
    rw
      (
        deserialize_pl_header-pl_bytes f.message_type f.destination f.source _,
        service_try_from-code f.service_id,
        read_asnd_payload-padded _ _ _ _ f.payload,
      )
      (ground arith)

-- Whether a list has a zero at its end.
unfoldable pub ends_in_zero : List ℕ → Bool
ends_in_zero [] = false
ends_in_zero (x ∷ []) = x == 0
ends_in_zero (x ∷ y ∷ xs) = ends_in_zero (y ∷ xs)

actual_len-ends_in_zero : (xs : List ℕ) → (actual_len xs ≡ length xs) ↔ (ends_in_zero xs ≡ false)
unfolding actual_len ends_in_zero
actual_len-ends_in_zero [] = (λ h. refl, λ h. refl)
actual_len-ends_in_zero (x ∷ []) = (λ h. ground arith, λ h. ground arith)
actual_len-ends_in_zero (x ∷ y ∷ xs) =
    let (there, back) = actual_len-ends_in_zero (y ∷ xs) in
    (λ h. there (ground arith), λ h. ground (arith, back h))

take-shorter : (n : ℕ) (xs : List ℕ) → n ≤ length xs → (take n xs ≡ xs) ↔ (n ≡ length xs)
take-shorter n xs l = (
  λ h. (let size = ap length h in omega (arith, size, length-take n xs)),
  λ h. take-all n xs (omega (arith, h)),
)

-- A frame with the message type of an ASnd frame comes out of its padded bytes unchanged exactly
-- if its payload has more than 42 bytes or no zero at its end.
pub asnd_as_read_iff :
    (f : AsndFrame)
    → f.message_type ≡ asnd
    → (deserialize_asnd f.eth_header
          (asnd_bytes f ++ (f.payload ++ padding (asnd_bytes f) f.payload))
        ≡ ok f)
      ↔ ((42 < length f.payload) ⊎ (ends_in_zero f.payload ≡ false))
unfolding asnd_as_read trim_zeros
asnd_as_read_iff f is_asnd =
    let ends = actual_len-ends_in_zero f.payload in
    let shorter = take-shorter (actual_len f.payload) f.payload (actual_len-le f.payload) in
    rw (deserialize-asnd_bytes f is_asnd) (
      λ h.
          (let same : (asnd_as_read f).payload ≡ f.payload = ap (λ g. g.payload) (ok-injective h) in
            elim (Bool-cases (leb (length f.payload) 42)) [
              | inl q ↦ inr (ends.0 (shorter.0 (ground (arith, q))))
              | inr q ↦ inl (ground arith)
            ]),
      λ h. elim h [ inl big ↦ ground arith | inr q ↦ ground (arith, shorter.1 (ends.1 q)) ],
    )
