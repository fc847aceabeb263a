-- ===== src/Frame/Padded.antt =====
-- The bytes of a frame in a buffer, as the `serialize` functions of crates/powerlink-rs/src/frame
-- write them: the fields one after the other, the payload behind them, and zeros up to the
-- smallest payload of an Ethernet frame.
use powerlink_rs.Common.{
  ℕ, ◌+◌, ◌-◌, ◌≤◌, max, ◌≡◌, refl, ap, ltb, if◌then◌else◌, List, [], ◌∷◌, ◌++◌, length, drop,
  replicate, drop-drop, take, take-append, sym, append_assoc, length-replicate, take, take-append,
  length-append, length-drop, Result, ok, err, arith,
}
use powerlink_rs.Common.Bytes.{write_slice, overwrite_lem, write_slice-append}
use powerlink_rs.Hal.{PowerlinkError, buffer_too_short}

-- `min_eth_payload_after_header`
abbrev pub min_eth_payload : ℕ
min_eth_payload = 46

-- The result, and the buffer as it is left, on errors too.
unfoldable pub write_padded : List ℕ → List ℕ → List ℕ → Result ℕ PowerlinkError × List ℕ
write_padded fields payload buffer =
    let size = length fields + length payload in
    let padded = max size min_eth_payload in
    let written = write_slice (length fields) payload (write_slice 0 fields buffer) in
    if ltb (length buffer) size
    then (err buffer_too_short, buffer)
    else if ltb (length buffer) padded
    then (err buffer_too_short, written)
    else (ok padded, write_slice size (replicate (padded - size) 0) written)

abbrev pub padded_size : List ℕ → List ℕ → ℕ
padded_size fields payload = max (length fields + length payload) min_eth_payload

-- The zeros behind the payload.
abbrev pub padding : List ℕ → List ℕ → List ℕ
padding fields payload = replicate (padded_size fields payload - (length fields + length payload)) 0

module _ (fields payload buffer : List ℕ) where
  fields-written :
      length fields + length payload ≤ length buffer
      → write_slice (length fields) payload (write_slice 0 fields buffer)
        ≡ fields ++ (payload ++ drop (length fields + length payload) buffer)
  fields-written l =
      let behind = drop (length fields) buffer in
      rw
        (
          overwrite_lem fields buffer (omega arith),
          write_slice-append fields payload behind,
          overwrite_lem payload behind (omega (arith, length-drop (length fields) buffer)),
          drop-drop (length payload) (length fields) buffer,
        )
        refl

  -- What a frame leaves of a buffer that is long enough: its fields, its payload, the padding,
  -- and the rest of the buffer.
  pub write_padded-fits :
      padded_size fields payload ≤ length buffer
      → write_padded fields payload buffer ≡ (
        ok (padded_size fields payload),
        fields ++ (payload ++ (padding fields payload ++ drop (padded_size fields payload) buffer)),
      )
  unfolding write_padded
  write_padded-fits l =
      let size = length fields + length payload in
      let rest = drop size buffer in
      let zeros = padding fields payload in
      let count : length zeros ≡ padded_size fields payload - size = length-replicate _ 0 in
      let total : size + length zeros ≡ padded_size fields payload = omega (arith, count) in
      let front : size ≡ length (fields ++ payload) = sym (length-append fields payload) in
      rw
        (
          fields-written (omega arith),
          sym (append_assoc fields payload rest),
          ap (λ n. write_slice n zeros ((fields ++ payload) ++ rest)) front,
          write_slice-append (fields ++ payload) zeros rest,
          overwrite_lem zeros rest (omega (arith, length-drop size buffer)),
          drop-drop (length zeros) size buffer,
          total,
          append_assoc fields payload (zeros ++ drop (padded_size fields payload) buffer),
        )
        (ground arith)

-- `buffer[start..start + size].to_vec()`, after the test of the length
unfoldable pub read_sized : ℕ → ℕ → List ℕ → Result (List ℕ) PowerlinkError
read_sized start size buffer =
    if ltb (length buffer) (start + size)
    then err buffer_too_short
    else ok (take size (drop start buffer))

drop-append : (xs ys : List ℕ) → drop (length xs) (xs ++ ys) ≡ ys
drop-append [] ys = refl
drop-append (x ∷ xs) ys = drop-append xs ys

pub read_sized-append :
    (fields payload rest : List ℕ) (size : ℕ)
    → size ≡ length payload
    → read_sized (length fields) size (fields ++ (payload ++ rest)) ≡ ok payload
unfolding read_sized
read_sized-append fields payload rest size sized =
    rw (sized, drop-append fields (payload ++ rest), take-append payload rest)
      (ground (arith, length-append fields (payload ++ rest), length-append payload rest))
