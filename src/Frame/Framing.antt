-- ===== src/Frame/Framing.antt =====
-- frame/frame.go: one length-prefixed frame on a stream.
use hush_go.Base.{
  ℕ, ◌+◌, ◌-◌, ◌^◌, ◌%◌, ◌≤◌, ◌<◌, Bytes, ◌++◌, append_assoc, length, take, drop, length-append,
  take-append-drop, length-take, length-drop, All-take, All-append_inv, All, frame_too_large,
  frame_too_short, Ensures, returns, fails, Ensures-if, Ensures-bind, Outcome, ok, err, ◌>>=◌, ◌≡◌,
  ap, sym, subst, ◌∙◌, ltb, lt→ltb, le→ltb, if◌then◌else◌, arith,
}
use hush_go.Base.BigEndian.{
  put_u32, get_u32, get_u32-put_u32, put_u32-get_u32, get_u32-lt, length-put_u32, IsByte,
}
use native.Mathlib.Nat.{mod-eq_of_lt}
use hush_go.Base.Reader.{read_full, read_full-append, read_full-Ensures}

abbrev pub max_frame_size : ℕ
max_frame_size = 2 ^ 20

abbrev pub frame_overhead : ℕ
frame_overhead = 4 + 12 + 16

abbrev pub frame_min_data : ℕ
frame_min_data = 4

-- Frame; its Data is `body` here.
pub record Frame : Type 0 where
  pub sequence_number : ℕ
  pub body : Bytes

-- The tests of Read between the length and the data.
read_sized : ℕ → Bytes → Outcome (Frame × Bytes)
read_sized frame_len bs = do
  (frame_data, rest) ← read_full frame_len bs
  ok (record { sequence_number = get_u32 (take 4 frame_data); body = drop 4 frame_data }, rest)

-- Read: the frame and the bytes behind it.
unfoldable pub read : Bytes → Outcome (Frame × Bytes)
unfolding read_sized
read stream = do
  (len_buf, bs) ← read_full 4 stream
  let frame_len = get_u32 len_buf
  if ltb max_frame_size frame_len
      then err frame_too_large
      else if ltb frame_len frame_min_data
      then err frame_too_short
      else read_sized frame_len bs

-- Write: the bytes that go to the stream in one call.
unfoldable pub write : ℕ → Bytes → Outcome Bytes
write seq frame_data =
    let total_len = 4 + length frame_data in
    if ltb max_frame_size total_len
    then err frame_too_large
    else ok (put_u32 (total_len % 2 ^ 32) ++ (put_u32 seq ++ frame_data))

-- ReadFrameLen
unfoldable pub read_frame_len : Bytes → Outcome (ℕ × Bytes)
read_frame_len stream = do (len_buf, bs) ← read_full 4 stream; ok (get_u32 len_buf, bs)

-- MaxSafePayload and WireOverhead
abbrev pub max_safe_payload : ℕ
max_safe_payload = max_frame_size - frame_overhead

abbrev pub wire_overhead : ℕ
wire_overhead = 36

-- What Write puts on the stream for a frame that is not too large.
abbrev pub wire : ℕ → Bytes → Bytes
wire seq frame_data = put_u32 (4 + length frame_data) ++ (put_u32 seq ++ frame_data)

pub write-ok :
    (seq : ℕ) (frame_data : Bytes)
    → 4 + length frame_data ≤ max_frame_size
    → write seq frame_data ≡ ok (wire seq frame_data)
unfolding write
write-ok seq frame_data fits =
    rw (le→ltb max_frame_size (4 + length frame_data) fits)
      (ap (λ (n : ℕ). ok (put_u32 n ++ (put_u32 seq ++ frame_data))) (mod-eq_of_lt (omega arith)))

-- A frame over the limit is refused by Write, and its announced length by Read.
pub write-too_large :
    (seq : ℕ) (frame_data : Bytes)
    → max_frame_size < 4 + length frame_data
    → write seq frame_data ≡ err frame_too_large
unfolding write
write-too_large seq frame_data large = rw (lt→ltb max_frame_size (4 + length frame_data) large)

-- Read gives back the frame that Write wrote, and leaves the bytes behind it.
pub read-wire :
    (seq : ℕ) (frame_data rest : Bytes)
    → seq < 2 ^ 32
    → 4 + length frame_data ≤ max_frame_size
    → read (wire seq frame_data ++ rest)
      ≡ ok (record { sequence_number = seq; body = frame_data }, rest)
unfolding read
read-wire seq frame_data rest hs fits =
    let len = 4 + length frame_data in
    let body = put_u32 seq ++ frame_data in
    rw
      (
        append_assoc (put_u32 len) body rest,
        read_full-append 4 (put_u32 len) (body ++ rest) (length-put_u32 len),
        get_u32-put_u32 len (omega arith),
        le→ltb max_frame_size len fits,
        le→ltb len frame_min_data (omega arith),
        read_full-append len body rest
            (omega (arith, length-append {0} (put_u32 seq) frame_data, length-put_u32 seq)),
      )
      (unfold put_u32 in
        ap (λ n. ok (record { sequence_number = n; body = frame_data }, rest))
          (get_u32-put_u32 seq hs))

-- A frame within the limit, with the bytes of the stream that it stands for.
abbrev pub IsReadFrom : Bytes → Frame × Bytes → Type 0
IsReadFrom stream (f, rest) =
    (4 + length f.body ≤ max_frame_size)
    × (f.sequence_number < 2 ^ 32)
    × (stream ≡ wire f.sequence_number f.body ++ rest)

-- A body of `frame_len` bytes splits into a sequence number and the data.
split_body :
    (body : Bytes)
    → All IsByte body
    → frame_min_data ≤ length body
    → (get_u32 (take 4 body) < 2 ^ 32)
      × (4 + length (drop 4 body) ≡ length body)
      × (body ≡ put_u32 (get_u32 (take 4 body)) ++ drop 4 body)
split_body body bytes long = (
  get_u32-lt (take 4 body) (All-take IsByte 4 body bytes),
  omega (arith, length-drop {0} 4 body),
  rw
      (put_u32-get_u32 (take 4 body) (All-take IsByte 4 body bytes)
        (omega (arith, length-take {0} 4 body)))
      (sym (take-append-drop 4 body)),
)

-- The pieces that Read cut, put together.
rebuilt :
    (stream len_buf bs body rest : Bytes) (seq : ℕ) (frame_data : Bytes)
    → stream ≡ len_buf ++ bs
    → bs ≡ body ++ rest
    → put_u32 (get_u32 len_buf) ≡ len_buf
    → 4 + length frame_data ≡ get_u32 len_buf
    → body ≡ put_u32 seq ++ frame_data
    → stream ≡ wire seq frame_data ++ rest
rebuilt stream len_buf bs body rest seq frame_data e e' canonical len parts =
    rw (e, e', len, canonical, ← parts, append_assoc)

-- Read never panics, and what it accepts is what Write puts on the stream: on a stream of bytes it
-- returns an error, or a frame within the size limit whose written form stands in front of the rest.
pub read-Ensures : (stream : Bytes) → All IsByte stream → Ensures (IsReadFrom stream) (read stream)
unfolding read
read-Ensures stream bytes = Ensures-bind (read_full-Ensures 4 stream) λ (len_buf, bs) (e, four).
    Ensures-if (ltb max_frame_size (get_u32 len_buf)) (λ _. fails)
      λ small.
        Ensures-if (ltb (get_u32 len_buf) frame_min_data) (λ _. fails)
          λ long. Ensures-bind (read_full-Ensures (get_u32 len_buf) bs) λ (body, rest) (e', len).
            let all = All-append_inv IsByte len_buf bs (subst (All IsByte) e bytes) in
            let parts =
              split_body body (All-append_inv IsByte body rest (subst (All IsByte) e' all.1)).0
                (ground arith) in
            returns (
              ground (arith, parts.1),
              parts.0,
              rebuilt stream len_buf bs body rest _ _ e e' (put_u32-get_u32 len_buf all.0 four)
                  (parts.1 ∙ len) parts.2,
            )
