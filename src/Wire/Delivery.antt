-- ===== src/Wire/Delivery.antt =====
-- However the system splits the bytes into calls, a message that is written is the message read.
use qo_smos.Prelude.{
  ℕ, zero, suc, ◌+◌, ◌-◌, ◌%◌, ◌^◌, ◌≤◌, ◌<◌, ◌≡◌, refl, sym, ap, ◌∙◌, min, List, [], ◌∷◌, ◌++◌,
  length, take, drop, arith, ltb, leb, ◌||◌, false, append_assoc, take-append-drop, length-append,
  length-drop,
}
use qo_smos.Prelude.Words.{u32_mod}
use qo_smos.Wire.{
  Call, moves, interrupted, no_bytes, failing, ok, Moved, write_bytes, be32, wire_conn_write, Read,
  read_bytes, ntohl, max_message_bytes, message, wire_conn_read, finish_message,
}

-- Calls that move bytes or are interrupted.
abbrev pub IsCalm : List Call → Type 0
IsCalm [] = Unit
IsCalm (moves n ∷ calls) = IsCalm calls
IsCalm (interrupted ∷ calls) = IsCalm calls
IsCalm (no_bytes ∷ calls) = ⊥
IsCalm (failing ∷ calls) = ⊥

-- How many of the calls move bytes.
abbrev pub moving : List Call → ℕ
moving [] = 0
moving (moves n ∷ calls) = suc (moving calls)
moving (_ ∷ calls) = moving calls

module _ {ℓ} {A : Type ℓ} where
  take-append_le : (n : ℕ) (xs ys : List A) → n ≤ length xs → take n (xs ++ ys) ≡ take n xs
  take-append_le zero xs ys h = refl
  take-append_le (suc n) [] ys h = absurd (omega arith)
  take-append_le (suc n) (x ∷ xs) ys h = ap (λ t. x ∷ t) (take-append_le n xs ys (omega arith))

  drop-append_le : (n : ℕ) (xs ys : List A) → n ≤ length xs → drop n (xs ++ ys) ≡ drop n xs ++ ys
  drop-append_le zero xs ys h = refl
  drop-append_le (suc n) [] ys h = absurd (omega arith)
  drop-append_le (suc n) (x ∷ xs) ys h = drop-append_le n xs ys (omega arith)

-- Everything is written, by at most one call for each byte.
record Written (calls : List Call) (buf : List ℕ) (m : Moved) : Type 0 where
  status : m.status ≡ ok
  bytes : m.bytes ≡ buf
  calm : IsCalm m.calls
  left : moving calls ≤ moving m.calls + length buf

write_all :
    (calls : List Call) (buf : List ℕ)
    → IsCalm calls
    → length buf ≤ moving calls
    → Written calls buf (write_bytes calls buf)
unfolding write_bytes
write_all calls [] calm enough = record {
  status = refl;
  bytes = refl;
  calm = calm;
  left = omega arith;
}
write_all [] (b ∷ buf) calm enough = absurd (omega arith)
write_all (interrupted ∷ calls) (b ∷ buf) calm enough =
    let w = write_all calls (b ∷ buf) calm enough in
    record { status = w.status; bytes = w.bytes; calm = w.calm; left = w.left }
write_all (no_bytes ∷ calls) (b ∷ buf) calm enough = absurd calm
write_all (failing ∷ calls) (b ∷ buf) calm enough = absurd calm
write_all (moves n ∷ calls) (b ∷ buf) calm enough =
    let k = min (suc n) (suc (length buf)) in
    let w =
      write_all calls (drop k (b ∷ buf)) calm (omega (arith, enough, length-drop k (b ∷ buf))) in
    record {
      status = w.status;
      bytes = ap (λ t. take k (b ∷ buf) ++ t) w.bytes ∙ take-append-drop k (b ∷ buf);
      calm = w.calm;
      left = omega (arith, w.left, length-drop k (b ∷ buf));
    }

record ReadAll (calls : List Call) (msg later : List ℕ) (r : Read) : Type 0 where
  status : r.status ≡ ok
  bytes : r.bytes ≡ msg
  stream : r.stream ≡ later
  calm : IsCalm r.calls
  left : moving calls ≤ moving r.calls + length msg

-- One call that reads the first k bytes of the message, and the rest.
after_call :
    (calls : List Call) (n k b : ℕ) (msg later : List ℕ)
    → k ≤ suc (length msg)
    → 1 ≤ k
    → ReadAll calls
        (drop k (b ∷ msg))
        later
        (read_bytes calls (drop k (b ∷ msg) ++ later) (length (drop k (b ∷ msg))))
    → let r = read_bytes calls (drop k (b ∷ msg ++ later)) (suc (length msg) - k) in
      ReadAll
        (moves n ∷ calls)
        (b ∷ msg)
        later
        (record r { bytes = take k (b ∷ msg ++ later) ++ r.bytes })
after_call calls n k b msg later inside some_read rest =
    rw (drops, needs)
      record {
        status = rest.status;
        bytes = ap (λ t. take k (b ∷ msg ++ later) ++ t) rest.bytes ∙ joined;
        stream = rest.stream;
        calm = rest.calm;
        left = omega (arith, rest.left, length-drop k (b ∷ msg));
      }
  where
    drops : drop k (b ∷ msg ++ later) ≡ drop k (b ∷ msg) ++ later
    drops = drop-append_le k (b ∷ msg) later inside

    needs : suc (length msg) - k ≡ length (drop k (b ∷ msg))
    needs = sym (length-drop k (b ∷ msg))

    joined : take k (b ∷ msg ++ later) ++ drop k (b ∷ msg) ≡ b ∷ msg
    joined = rw (take-append_le k (b ∷ msg) later inside) (take-append-drop k (b ∷ msg))

read_all :
    (calls : List Call) (msg later : List ℕ)
    → IsCalm calls
    → length msg ≤ moving calls
    → ReadAll calls msg later (read_bytes calls (msg ++ later) (length msg))
unfolding read_bytes
read_all calls [] later calm enough = record {
  status = refl;
  bytes = refl;
  stream = refl;
  calm = calm;
  left = omega arith;
}
read_all [] (b ∷ msg) later calm enough = absurd (omega arith)
read_all (interrupted ∷ calls) (b ∷ msg) later calm enough =
    let r = read_all calls (b ∷ msg) later calm enough in
    record { status = r.status; bytes = r.bytes; stream = r.stream; calm = r.calm; left = r.left }
read_all (no_bytes ∷ calls) (b ∷ msg) later calm enough = absurd calm
read_all (failing ∷ calls) (b ∷ msg) later calm enough = absurd calm
read_all (moves n ∷ calls) (b ∷ msg) later calm enough =
    let k = min (suc n) (min (suc (length msg)) (suc (length (msg ++ later)))) in
    after_call calls n k b msg later (omega arith) (omega (arith, length-append msg later)) (
      read_all calls (drop k (b ∷ msg)) later calm
        (omega (arith, enough, length-drop k (b ∷ msg), length-append msg later)))

ntohl-be32 : (v : ℕ) (rest : List ℕ) → v < u32_mod → ntohl (be32 v ++ rest) ≡ v
unfolding ntohl be32
ntohl-be32 v rest h = omega arith

abbrev frame_header : ℕ → ℕ → List ℕ
frame_header op size = be32 (8 + size) ++ be32 op

frame_length : (op size : ℕ) → length (frame_header op size) ≡ 8
unfolding be32
frame_length op size = refl

write_frame :
    (calls : List Call) (op : ℕ) (buf : List ℕ)
    → IsCalm calls
    → 8 + length buf ≤ moving calls
    → ((wire_conn_write calls op buf).status ≡ ok)
      × ((wire_conn_write calls op buf).bytes ≡ frame_header op (length buf) ++ buf)
unfolding wire_conn_write
write_frame calls op buf calm enough =
    let size = frame_length op (length buf) in
    let h = write_all calls (frame_header op (length buf)) calm (omega (arith, enough, size)) in
    let b =
      write_all (write_bytes calls (frame_header op (length buf))).calls buf h.calm
        (omega (arith, enough, size, h.left)) in
    (
      rw (h.status, wire_conn_write) b.status,
      rw (h.status, wire_conn_write) (rw (h.bytes, b.bytes) refl),
    )

-- The length in the header, as it is read back.
read_length : (size : ℕ) → size ≤ max_message_bytes → (8 + size + u32_mod - 8) % u32_mod ≡ size
read_length size h = omega arith

small_int :
    (size : ℕ)
    → size ≤ max_message_bytes
    → (leb (2 ^ 31) size || ltb max_message_bytes size) ≡ false
small_int size h = ground arith

finish-message :
    (op size : ℕ) (header body : Read) (msg later : List ℕ)
    → header.status ≡ ok
    → size ≤ max_message_bytes
    → ReadAll header.calls msg later body
    → finish_message header size body ≡ message (ntohl (drop 4 header.bytes)) msg later
unfolding finish_message
finish-message op size header body msg later h short b =
    rw (h, small_int size short) (rw b.status (rw (b.bytes, b.stream) refl))

read_header :
    (calls : List Call) (op size : ℕ) (later : List ℕ)
    → IsCalm calls
    → 8 ≤ moving calls
    → ReadAll calls
        (frame_header op size)
        later
        (read_bytes calls (frame_header op size ++ later) 8)
unfolding be32
read_header calls op size later calm enough =
    read_all calls (frame_header op size) later calm enough

read_op : (op size : ℕ) → op < u32_mod → ntohl (drop 4 (frame_header op size)) ≡ op
unfolding be32
read_op op size h = ntohl-be32 op [] h

read_frame :
    (calls : List Call) (op : ℕ) (buf later : List ℕ)
    → IsCalm calls
    → 8 + length buf ≤ moving calls
    → op < u32_mod
    → length buf ≤ max_message_bytes
    → wire_conn_read calls (frame_header op (length buf) ++ (buf ++ later)) ≡ message op buf later
unfolding wire_conn_read
read_frame calls op buf later calm enough small short =
    let size = frame_length op (length buf) in
    let header = frame_header op (length buf) in
    let h = read_header calls op (length buf) (buf ++ later) calm (omega arith) in
    let b =
      read_all (read_bytes calls (header ++ (buf ++ later)) 8).calls buf later h.calm
        (omega (arith, enough, size, h.left)) in
    let read_size : (ntohl (read_bytes calls (header ++ (buf ++ later)) 8).bytes + u32_mod - 8)
          % u32_mod
        ≡ length buf =
      rw (h.bytes, ntohl-be32 (8 + length buf) (be32 op) (omega arith))
        (read_length (length buf) short) in
    rw (read_size, h.stream)
      (finish-message op (length buf) (read_bytes calls (header ++ (buf ++ later)) 8) _ buf later
          h.status short b
        ∙ ap (λ n. message n buf later)
            (ap (λ l. ntohl (drop 4 l)) h.bytes ∙ read_op op (length buf) small))

-- A message that is not too long, written in any number of calls that move bytes or are interrupted, at least one for each byte, and read in any such calls, arrives with its op and its bytes, and what is behind it in the connection stays there.
pub wire_conn_read-write :
    (write_calls read_calls : List Call) (op : ℕ) (buf later : List ℕ)
    → IsCalm write_calls
    → IsCalm read_calls
    → 8 + length buf ≤ moving write_calls
    → 8 + length buf ≤ moving read_calls
    → op < u32_mod
    → length buf ≤ max_message_bytes
    → ((wire_conn_write write_calls op buf).status ≡ ok)
      × (wire_conn_read read_calls ((wire_conn_write write_calls op buf).bytes ++ later)
          ≡ message op buf later)
wire_conn_read-write write_calls read_calls op buf later wcalm rcalm wenough renough small short =
    let (written, sent) = write_frame write_calls op buf wcalm wenough in
    (
      written,
      rw (sent, ← append_assoc (frame_header op (length buf)) buf later)
          (read_frame read_calls op buf later rcalm renough small short),
    )
