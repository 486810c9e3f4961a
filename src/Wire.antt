-- ===== src/Wire.antt =====
-- Messages between wire client and server: app/src/main/cpp/wire_conn.c and wire_protocol.h. The system
-- decides how many of the bytes each call of write(2) or read(2) moves: a list says how each call ends.
pub mod Delivery
use qo_smos.Prelude.{
  ℕ, zero, suc, ◌+◌, ◌-◌, ◌*◌, ◌/◌, ◌%◌, ◌^◌, min, Bool, List, [], ◌∷◌, ◌++◌, Option, none, some,
  ◌||◌, ltb, leb, ◌==◌, if◌then◌else◌, length, take, drop,
}
use qo_smos.Prelude.Words.{u32_mod}

-- A call that moves one byte more than the number, or as many as there are; EINTR or EAGAIN; 0; another error.
pub data Call : Type 0 where
  moves : ℕ → Call
  interrupted no_bytes failing : Call

-- STATUS_OK and STATUS_ERR; `waiting` is a loop that has seen all the calls of the list.
pub data Status : Type 0 where
  ok err waiting : Status

-- What a loop of calls did: the bytes moved, and the calls still to come.
pub record Moved : Type 0 where
  pub status : Status
  pub bytes : List ℕ
  pub calls : List Call

abbrev behind : List ℕ → Moved → Moved
behind bytes m = record m { bytes = bytes ++ m.bytes }

unfoldable pub write_bytes : List Call → List ℕ → Moved
write_bytes calls [] = record { status = ok; bytes = []; calls = calls }
write_bytes [] (b ∷ buf) = record { status = waiting; bytes = []; calls = [] }
write_bytes (interrupted ∷ calls) (b ∷ buf) = write_bytes calls (b ∷ buf)
write_bytes (no_bytes ∷ calls) (b ∷ buf) = write_bytes calls (b ∷ buf)
write_bytes (failing ∷ calls) (b ∷ buf) = record { status = err; bytes = []; calls = calls }
write_bytes (moves n ∷ calls) (b ∷ buf) =
    let bytes_written = min (suc n) (length (b ∷ buf)) in
    behind (take bytes_written (b ∷ buf)) (write_bytes calls (drop bytes_written (b ∷ buf)))

-- A word in network order.
unfoldable pub be32 : ℕ → List ℕ
be32 v = v / 2 ^ 24 % 2 ^ 8 ∷ v / 2 ^ 16 % 2 ^ 8 ∷ v / 2 ^ 8 % 2 ^ 8 ∷ v % 2 ^ 8 ∷ []

-- The op is a number of `enum wire_op_t`.
unfoldable pub wire_conn_write : List Call → ℕ → List ℕ → Moved
unfolding write_bytes be32
wire_conn_write calls op buf =
    let header = write_bytes calls (be32 (8 + length buf) ++ be32 op) in
    elim header.status [ ok ↦ behind header.bytes (write_bytes header.calls buf) | _ ↦ header ]

-- The bytes read, and those that are still in the connection.
pub record Read : Type 0 where
  pub status : Status
  pub bytes : List ℕ
  pub stream : List ℕ
  pub calls : List Call

-- A call on an empty connection waits.
unfoldable pub read_bytes : List Call → List ℕ → ℕ → Read
read_bytes calls stream zero = record { status = ok; bytes = []; stream = stream; calls = calls }
read_bytes [] stream (suc k) = record { status = waiting; bytes = []; stream = stream; calls = [] }
read_bytes (interrupted ∷ calls) stream (suc k) = read_bytes calls stream (suc k)
read_bytes (no_bytes ∷ calls) stream (suc k) = record {
  status = err;
  bytes = [];
  stream = stream;
  calls = calls;
}
read_bytes (failing ∷ calls) stream (suc k) = record {
  status = err;
  bytes = [];
  stream = stream;
  calls = calls;
}
read_bytes (moves n ∷ calls) [] (suc k) = record {
  status = waiting;
  bytes = [];
  stream = [];
  calls = calls;
}
read_bytes (moves n ∷ calls) (s ∷ stream) (suc k) =
    let bytes_read = min (suc n) (min (suc k) (length (s ∷ stream))) in
    let r = read_bytes calls (drop bytes_read (s ∷ stream)) (suc k - bytes_read) in
    record r { bytes = take bytes_read (s ∷ stream) ++ r.bytes }

unfoldable pub ntohl : List ℕ → ℕ
ntohl (a ∷ b ∷ c ∷ d ∷ rest) = ((a * 2 ^ 8 + b) * 2 ^ 8 + c) * 2 ^ 8 + d
ntohl _ = 0

abbrev pub max_message_bytes : ℕ
max_message_bytes = 10 * 1000 * 1000

pub data Message : Type 0 where
  message : ℕ → List ℕ → List ℕ → Message
  failed starved : Message

-- What is made of the header and a body of the length in it.
unfoldable pub finish_message : Read → ℕ → Read → Message
unfolding ntohl
finish_message header buf_len body = elim header.status [
  | err ↦ failed
  | waiting ↦ starved
  | ok ↦
      if leb (2 ^ 31) buf_len || ltb max_message_bytes buf_len then failed else elim body.status [
        | err ↦ failed
        | waiting ↦ starved
        | ok ↦ message (ntohl (drop 4 header.bytes)) body.bytes body.stream
      ]
]

-- The length without the header is a C `int`, which is negative from 2^31 on.
unfoldable pub wire_conn_read : List Call → List ℕ → Message
unfolding read_bytes finish_message
wire_conn_read calls stream =
    let header = read_bytes calls stream 8 in
    let buf_len = (ntohl header.bytes + u32_mod - 8) % u32_mod in
    finish_message header buf_len (read_bytes header.calls header.stream buf_len)
