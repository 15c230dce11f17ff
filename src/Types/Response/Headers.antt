-- ===== src/Types/Response/Headers.antt =====
-- The loop over the raw headers, against the list of 80-byte pieces.
use Prim.Native.Nat.add
use electrum_sdk.Base.{
  ℕ, zero, suc, ◌+◌, ◌-◌, ◌*◌, ◌%◌, ◌^◌, ◌≤◌, ◌<◌, ◌≡◌, refl, ap, ◌∙◌, List, [], ◌∷◌, ◌++◌, none,
  some, Result, ok, err, map_err, Outcome, done, panic, lift, and_then, traverse, ◌/◌, dec_lt,
  ◌>>=◌, length, take, drop, append_assoc, append-nil, arith,
}
use electrum_sdk.External.{External, Bytes}
use electrum_sdk.Types.Structs.{GetHeadersRes, read_headers_res}
use electrum_sdk.Types.Message.{Error, bitcoin}
use electrum_sdk.Types.Response.{
  block_headers, header_size, usize_mod, slice, parse_headers, headers_response,
}

drop-nil {ℓ} : {A : Type ℓ} (n : ℕ) → drop {A = A} n [] ≡ []
drop-nil zero = refl
drop-nil (suc n) = refl

-- The first `n` pieces of 80 bytes.
abbrev pub chunks : ℕ → Bytes → List Bytes
chunks zero b = []
chunks (suc n) b = take header_size b ∷ chunks n (drop header_size b)

pub drop-drop {ℓ} : {A : Type ℓ} (m n : ℕ) (xs : List A) → drop n (drop m xs) ≡ drop (m + n) xs
drop-drop zero n xs = rw (add.zero n)
drop-drop (suc m) n [] = rw (add.suc m n, drop-nil n)
drop-drop (suc m) n (x ∷ xs) = rw (add.suc m n) (drop-drop m n xs)

-- A slice that fits is the piece; the arithmetic does not wrap.
slice_fits :
    (raw : Bytes) (i : ℕ)
    → length raw < 2 ^ 63
    → (i + 1) * header_size ≤ length raw
    → slice raw ((i * header_size) % usize_mod) (((i + 1) * header_size) % usize_mod)
      ≡ some (take header_size (drop (i * header_size) raw))
unfolding slice
slice_fits raw i small fits =
    let a : (i * header_size) % usize_mod ≡ i * header_size = omega arith in
    let b : ((i + 1) * header_size) % usize_mod ≡ (i + 1) * header_size = omega arith in
    let c : (i + 1) * header_size - i * header_size ≡ header_size = omega arith in
    rw (a, b, slice, c) (ground arith)

slice_out :
    (raw : Bytes) (i : ℕ)
    → length raw < 2 ^ 63
    → i * header_size ≤ length raw
    → length raw < (i + 1) * header_size
    → slice raw ((i * header_size) % usize_mod) (((i + 1) * header_size) % usize_mod) ≡ none
unfolding slice
slice_out raw i small start beyond = ground arith

-- An element that is read before the rest of the list.
read_first {ℓ κ} :
    {A : Type ℓ} {E : Type κ} (hs : List A) (r : Result A E) (rest : Result (List A) E)
    (k : A → Outcome (List A) E)
    → ((h : A) → k h ≡ and_then (lift rest) λ new. done ((hs ++ h ∷ []) ++ new))
    → and_then (lift r) k
      ≡ and_then (lift (r >>= λ y. rest >>= λ ys. ok (y ∷ ys))) λ new. done (hs ++ new)
read_first hs (err e) rest k f = refl
read_first hs (ok h) (ok ys) k f = f h ∙ ap done (append_assoc hs (h ∷ []) ys)
read_first hs (ok h) (err e) k f = f h

next_chunks :
    (raw : Bytes) (i n : ℕ)
    → chunks n (drop header_size (drop (i * header_size) raw))
      ≡ chunks n (drop ((i + 1) * header_size) raw)
next_chunks raw i n =
    let e : i * header_size + header_size ≡ (i + 1) * header_size = omega arith in
    rw (drop-drop (i * header_size) header_size raw, e)

-- Two continuations of one result, one after the other.
and_then-lift {ℓ κ μ ν} :
    {A : Type ℓ} {B : Type κ} {C : Type μ} {E : Type ν} (r : Result A E) (f : A → Outcome B E)
    (g : B → Outcome C E)
    → and_then (and_then (lift r) f) g ≡ and_then (lift r) λ a. and_then (f a) g
and_then-lift (ok a) f g = refl
and_then-lift (err e) f g = refl

module _ {x : External} where
  abbrev pub read_chunk : Bytes → Result x.BlockHeader (Error x)
  read_chunk b = map_err bitcoin (x.deserialize_header b)

  -- One round, by the outcome of the slice.
  parse_in :
      (raw chunk : Bytes) (i left : ℕ) (hs : List x.BlockHeader)
      → slice raw ((i * header_size) % usize_mod) (((i + 1) * header_size) % usize_mod) ≡ some chunk
      → parse_headers {x = x} raw i (suc left) hs
        ≡ and_then (lift (read_chunk chunk)) λ h. parse_headers raw (i + 1) left (hs ++ h ∷ [])
  unfolding parse_headers
  parse_in raw chunk i left hs e = ground (arith, e)

  parse_out :
      (raw : Bytes) (i left : ℕ) (hs : List x.BlockHeader)
      → slice raw ((i * header_size) % usize_mod) (((i + 1) * header_size) % usize_mod) ≡ none
      → parse_headers {x = x} raw i (suc left) hs ≡ panic
  unfolding parse_headers
  parse_out raw i left hs e = ground (arith, e)

  -- If all pieces fit, the loop reads the pieces in order, up to the first error.
  pub parse_headers-chunks :
      (raw : Bytes) (i left : ℕ) (hs : List x.BlockHeader)
      → length raw < 2 ^ 63
      → (i + left) * header_size ≤ length raw
      → parse_headers {x = x} raw i left hs
        ≡ and_then
            (lift (traverse read_chunk (chunks left (drop (i * header_size) raw))))
            λ new. done (hs ++ new)
  unfolding traverse
  parse_headers-chunks raw i zero hs small fits = unfold parse_headers in rw append-nil
  parse_headers-chunks raw i (suc left) hs small fits =
      parse_in raw _ i left hs (slice_fits raw i small (omega arith))
      ∙ read_first hs (read_chunk (take header_size (drop (i * header_size) raw))) _ _ λ h.
        rw (next_chunks raw i left)
          (parse_headers-chunks raw (i + 1) left (hs ++ h ∷ []) small (omega arith))

  -- A round that finds a whole piece, in front of a loop that ends in a panic.
  read_whole :
      (hs : List x.BlockHeader) (r : Result x.BlockHeader (Error x))
      (rest : Result (List x.BlockHeader) (Error x))
      (k : x.BlockHeader → Outcome (List x.BlockHeader) (Error x))
      → ((h : x.BlockHeader) → k h ≡ and_then (lift rest) λ new. panic)
      → and_then (lift r) k ≡ and_then (lift (r >>= λ y. rest >>= λ ys. ok (y ∷ ys))) λ new. panic
  read_whole hs (err e) rest k f = refl
  read_whole hs (ok h) (ok ys) k f = f h
  read_whole hs (ok h) (err e) k f = f h

  -- If the pieces do not fit, the loop reads the whole pieces, up to the first error, and panics.
  pub parse_headers-short :
      (raw : Bytes) (i left : ℕ) (hs : List x.BlockHeader)
      → length raw < 2 ^ 63
      → i * header_size ≤ length raw
      → length raw < (i + left) * header_size
      → parse_headers {x = x} raw i left hs
        ≡ and_then
            (lift (
              traverse read_chunk
                (chunks (length raw / header_size - i) (drop (i * header_size) raw))))
            λ new. panic
  unfolding traverse
  parse_headers-short raw i zero hs small start beyond = absurd (omega arith)
  parse_headers-short raw i (suc left) hs small start beyond =
      elim (dec_lt (length raw) ((i + 1) * header_size)) [
        | yes out ↦
            let none_left : length raw / header_size - i ≡ 0 = omega arith in
            rw none_left (parse_out raw i left hs (slice_out raw i small start out))
        | no in' ↦
            let more : length raw / header_size - i ≡ suc (length raw / header_size - (i + 1)) =
              omega arith in
            rw more (
              parse_in raw _ i left hs (slice_fits raw i small (omega arith))
              ∙ read_whole hs (read_chunk (take header_size (drop (i * header_size) raw))) _ _ λ h.
                rw (next_chunks raw i (length raw / header_size - (i + 1))) (
                  parse_headers-short raw (i + 1) left (hs ++ h ∷ []) small (omega arith)
                    (omega arith)))
      ]

  -- `headers` of the decoded answer is empty.
  read_headers_res-headers :
      (v : x.Value) (res : GetHeadersRes x) → read_headers_res x v ≡ ok res → res.headers ≡ []
  unfolding read_headers_res
  read_headers_res-headers v res h = ground arith

  -- The answer to `GetBlockHeaders` for a decoded `res` of under 2 ^ 63 bytes, whose `count` pieces
  -- of 80 bytes fit into its `hex` field: the headers are those pieces, read in order, with the raw
  -- bytes cleared, or the first error.
  pub headers_response-fits :
      (v : x.Value) (res : GetHeadersRes x)
      → read_headers_res x v ≡ ok res
      → length res.raw_headers < 2 ^ 63
      → res.count * header_size ≤ length res.raw_headers
      → headers_response x v
        ≡ and_then
            (lift (traverse read_chunk (chunks res.count res.raw_headers)))
            λ hs. done (block_headers (record res { raw_headers = []; headers = hs }))
  unfolding headers_response
  headers_response-fits v res h small fits =
      rw (headers_response, h, read_headers_res-headers v res h)
        (rw (parse_headers-chunks res.raw_headers 0 res.count [] small (omega arith))
          (and_then-lift (traverse read_chunk (chunks res.count res.raw_headers)) _ _))

  -- If the `count` pieces do not fit, no answer is returned: the whole pieces are read, up to the
  -- first error, and then the code panics.
  pub headers_response-short :
      (v : x.Value) (res : GetHeadersRes x)
      → read_headers_res x v ≡ ok res
      → length res.raw_headers < 2 ^ 63
      → length res.raw_headers < res.count * header_size
      → headers_response x v
        ≡ and_then
            (lift
              (traverse read_chunk (chunks (length res.raw_headers / header_size) res.raw_headers)))
            λ hs. panic
  unfolding headers_response
  headers_response-short v res h small short =
      let whole : length res.raw_headers / header_size - 0 ≡ length res.raw_headers / header_size =
        omega arith in
      rw (headers_response, h, read_headers_res-headers v res h)
        (rw
          (
            parse_headers-short res.raw_headers 0 res.count [] small (omega arith) (omega arith),
            whole,
          )
          (and_then-lift
            (traverse read_chunk (chunks (length res.raw_headers / header_size) res.raw_headers)) _
            _))
