-- ===== src/Tlv/Stream/Total.antt =====
-- Decoding from a stream returns on every stream.
use hush_go.Base.{
  ℕ, zero, suc, ◌≤◌, ◌<◌, Bytes, List, [], ◌∷◌, length, length-append, All, Outcome, ok, err,
  panics, out_of_fuel, ◌>>=◌, refl, sym, subst, ltb, arith, none, some,
}
use hush_go.Base.{
  eof, Ensures, returns, fails, Ensures-bind, Ensures-if, Ensures-map, Ensures-ok,
  Ensures-ne-panics, Ensures-ne-out_of_fuel,
}
use hush_go.Base.ReadUvarint.{read_uvarint, length-read_uvarint}
use hush_go.Base.Reader.{read_full-Ensures}
use hush_go.Tlv.Types.{Value, type_of_byte}
use hush_go.Tlv.Decode.{max_payload, decode_fuel, decode_value}
use hush_go.Tlv.Total.{IsDecoded, decode_value_total}
use hush_go.Tlv.Stream.{read_payload, decode_reader, after_round, decode_rounds, decode_all}

read_payload-Ensures :
    (len : ℕ) (stream : Bytes)
    → Ensures (λ (payload, rest). length rest ≤ length stream) (read_payload len stream)
unfolding read_payload
read_payload-Ensures len stream =
    Ensures-if (ltb 0 len)
      (λ _. Ensures-map (read_full-Ensures len stream) (λ (payload, rest) (split, _).
        subst (λ s. length rest ≤ length s) (sym split)
          (omega (arith, length-append {0} payload rest))))
      (λ _. returns (omega arith))

abbrev IsRead : ℕ → Value × Bytes → Type 0
IsRead n (v, rest) = IsDecoded 0 v × (length rest < n)

-- A value within the depth limit, and fewer bytes behind it than there were.
decode_reader-Ensures : (stream : Bytes) → Ensures (IsRead (length stream)) (decode_reader stream)
unfolding decode_reader
decode_reader-Ensures [] = fails
decode_reader-Ensures (t ∷ tail) =
    Ensures-if (ltb max_payload (read_uvarint tail).0) (λ _. fails)
      (λ _.
        elim (read_uvarint tail).1
          as (λ failed. Ensures (IsRead (length (t ∷ tail))) (elim failed [
            | some e ↦ err e
            | none ↦ (do
              (payload, rest) ← read_payload (read_uvarint tail).0 (read_uvarint tail).2
              v ← decode_value decode_fuel (type_of_byte t) payload 0
              ok (v, rest))
          ])) [
            | some e ↦ fails
            | none ↦ Ensures-bind (read_payload-Ensures _ _) (λ (payload, rest) shorter.
                Ensures-bind
                  (decode_value_total decode_fuel 0 (type_of_byte t) payload (omega arith)
                    (omega arith))
                  (λ v d.
                    let short : length rest < length (t ∷ tail) =
                      omega (arith, shorter, length-read_uvarint tail) in
                    returns (d, short)))
          ])

after_round-Ensures :
    (go_on : Bytes → Outcome (List Value)) (n : ℕ) (r : Outcome (Value × Bytes))
    → ((rest : Bytes) → length rest < n → Ensures (All (IsDecoded 0)) (go_on rest))
    → Ensures (IsRead n) r
    → Ensures (All (IsDecoded 0)) (after_round go_on r)
unfolding after_round
after_round-Ensures go_on n (ok (v, rest)) k h =
    let p = Ensures-ok h refl in Ensures-bind (k rest p.1) (λ vs d. returns (p.0, d))
after_round-Ensures go_on n (err eof) k h = returns tt
after_round-Ensures go_on n (err e) k h = fails
after_round-Ensures go_on n panics k h = absurd (Ensures-ne-panics h refl)
after_round-Ensures go_on n out_of_fuel k h = absurd (Ensures-ne-out_of_fuel h refl)

decode_rounds-Ensures :
    (rounds : ℕ) (stream : Bytes)
    → length stream < rounds
    → Ensures (All (IsDecoded 0)) (decode_rounds rounds stream)
unfolding decode_rounds
decode_rounds-Ensures zero stream h = absurd (omega arith)
decode_rounds-Ensures (suc rounds) stream h =
    after_round-Ensures (decode_rounds rounds) (length stream) (decode_reader stream)
      (λ rest shorter. decode_rounds-Ensures rounds rest (omega arith))
      (decode_reader-Ensures stream)

-- On any stream DecodeAll returns, without a panic: an error, or values that keep to the depth limit and
-- whose maps have distinct keys.
pub decode_all-Ensures : (stream : Bytes) → Ensures (All (IsDecoded 0)) (decode_all stream)
unfolding decode_all
decode_all-Ensures stream = decode_rounds-Ensures (suc (length stream)) stream (omega arith)
