-- ===== src/Json/Sample.antt =====
-- A library that keeps the laws of `Json.antt`: a value is its own code, and a dump shifts the code
-- past the line break. The examples run on it.
use iot_devices_ledger_audit.Prelude.{
  ℕ, zero, suc, ◌+◌, ◌-◌, ◌*◌, ◌%◌, ◌<◌, ◌≡◌, ◌≢◌, refl, ap, false, List, [], ◌∷◌, ◌++◌, some,
  Result, ok, err, map, length, take, drop, replicate, All, none, arith, Bool-cases, if◌then◌else◌,
  take-length-append, drop-length-append, is_empty, inl, inr,
}
use iot_devices_ledger_audit.Prelude.Bytes.{Bytes, lookup, str_eq}
use iot_devices_ledger_audit.Json.Interface.{Library, Laws, FeedLaws}

pub enc_fields : List (Bytes × Bytes) → Bytes
enc_fields [] = []
enc_fields ((k, v) ∷ fs) = length k ∷ (k ++ (length v ∷ (v ++ enc_fields fs)))

pub enc_list : List Bytes → Bytes
enc_list [] = []
enc_list (v ∷ vs) = length v ∷ (v ++ enc_list vs)

ok_inj : {s t : Bytes} → ◌≡◌ {A = Result Bytes Bytes} (ok s) (ok t) → s ≡ t
ok_inj h = cc

find_field : ℕ → Bytes → Bytes → Result Bytes Bytes
find_field zero k code = err (0 ∷ [])
find_field (suc f) k [] = err (0 ∷ [])
find_field (suc f) k (n ∷ code) = elim (drop n code) [
  | [] ↦ err (0 ∷ [])
  | m ∷ rest ↦ if str_eq (take n code) k then ok (take m rest) else find_field f k (drop m rest)
]

of_fields : List (Bytes × Bytes) → Bytes
of_fields fs = 5 ∷ length fs ∷ enc_fields fs

at : Bytes → Bytes → Result Bytes Bytes
unfolding find_field
at (suc (suc (suc (suc (suc zero)))) ∷ n ∷ code) k = find_field n k code
at _ k = err (1 ∷ [])

get_str : Bytes → Result Bytes Bytes
get_str (suc (suc (suc zero)) ∷ s) = ok s
get_str _ = err (2 ∷ [])

get_uint : Bytes → Result Bytes ℕ
get_uint (suc (suc zero) ∷ n ∷ []) = ok n
get_uint _ = err (3 ∷ [])

sum : Bytes → ℕ
sum [] = 0
sum (c ∷ s) = c + 3 * sum s

digest : Bytes → Bytes
unfolding sum
digest s = (sum s % 256) ∷ replicate 31 0

dump : Bytes → Bytes
dump = map (λ c. c + 11)

parse : Bytes → Bytes
parse = map (λ c. c - 11)

-- No value is written as the empty text.
checked_parse : Bytes → Result Bytes Bytes
unfolding parse
checked_parse s = if is_empty s then err (4 ∷ []) else ok (parse s)

unfoldable pub sample : Library
unfolding of_fields enc_fields enc_list at get_str get_uint digest dump checked_parse
sample = record {
  Json = Bytes;
  null = 0 ∷ [];
  of_bool = λ b. 1 ∷ (if b then 1 else 0) ∷ [];
  of_uint = λ n. 2 ∷ n ∷ [];
  of_str = λ s. 3 ∷ s;
  of_list = λ vs. 4 ∷ enc_list vs;
  of_fields = of_fields;
  dump = λ j. ok (dump j);
  parse = checked_parse;
  at = at;
  get_str = get_str;
  get_uint = get_uint;
  sha256 = digest;
}

find_field-enc :
    (fs : List (Bytes × Bytes)) (k v : Bytes)
    → lookup k fs ≡ some v
    → find_field (length fs) k (enc_fields fs) ≡ ok v
unfolding find_field enc_fields lookup
find_field-enc [] k v h = cc
find_field-enc ((j, w) ∷ fs) k v h =
    rw (drop-length-append j (length w ∷ (w ++ enc_fields fs)), find_field)
      (rw (take-length-append j (length w ∷ (w ++ enc_fields fs))) (elim (Bool-cases (str_eq j k)) [
        | inl hit ↦ rw (hit, take-length-append w (enc_fields fs)) (ground arith)
        | inr miss ↦
            rw (miss, drop-length-append w (enc_fields fs)) (find_field-enc fs k v (ground arith))
      ]))

parse-dump : (j : Bytes) → parse (dump j) ≡ j
unfolding parse dump
parse-dump [] = refl
parse-dump (c ∷ j) = ground (arith, parse-dump j)

dump-line : (j : Bytes) → All (λ c. c ≢ 10) (dump j)
unfolding dump
dump-line [] = tt
dump-line (c ∷ j) = (omega arith, dump-line j)

parse-is_exact : (s j : Bytes) → checked_parse s ≡ ok j → is_empty j ≡ false
unfolding checked_parse
parse-is_exact [] j h = cc
parse-is_exact (c ∷ s) j h = ground arith

parse_dump_lem : (j : Bytes) → is_empty j ≡ false → checked_parse (dump j) ≡ ok j
unfolding checked_parse dump
parse_dump_lem [] h = cc
parse_dump_lem (c ∷ j) h = ap ok (parse-dump (c ∷ j))

checked :
    (j s : Bytes)
    → is_empty j ≡ false
    → ◌≡◌ {A = Result Bytes Bytes} (ok (dump j)) (ok s)
    → checked_parse s ≡ ok j
checked j s x h = rw (← ok_inj h) (parse_dump_lem j x)

line : (j s : Bytes) → ◌≡◌ {A = Result Bytes Bytes} (ok (dump j)) (ok s) → All (λ c. c ≢ 10) s
line j s h = rw (← ok_inj h) (dump-line j)

digest_bytes : (s : Bytes) → All (λ b. b < 256) (digest s)
unfolding digest
digest_bytes s = omega arith

length-digest : (s : Bytes) → length (digest s) ≡ 32
unfolding digest
length-digest s = refl

pub sample_laws : Laws sample
unfolding sample
sample_laws = record {
  IsExact = λ j. is_empty j ≡ false;
  at_fields = λ fs k v h. find_field-enc fs k v h;
  get_str_of = λ s. refl;
  get_uint_of = λ n h. refl;
  exact_uint = λ n h. refl;
  exact_str = λ s. refl;
  exact_fields = λ fs h. refl;
  exact_parse = λ s j h. parse-is_exact s j h;
  parse_dump = λ j s x h. checked j s x h;
  dump_line = λ j s h. line j s h;
  sha256_length = λ s. length-digest s;
  sha256_bytes = λ s. digest_bytes s;
}

find_field-absent :
    (fs : List (Bytes × Bytes)) (k : Bytes)
    → lookup k fs ≡ none
    → find_field (length fs) k (enc_fields fs) ≡ err (0 ∷ [])
unfolding find_field enc_fields lookup
find_field-absent [] k h = refl
find_field-absent ((j, w) ∷ fs) k h =
    rw (drop-length-append j (length w ∷ (w ++ enc_fields fs)), find_field)
      (rw (take-length-append j (length w ∷ (w ++ enc_fields fs))) (elim (Bool-cases (str_eq j k)) [
        | inl hit ↦ absurd (ground (arith, hit))
        | inr miss ↦
            rw (miss, drop-length-append w (enc_fields fs)) (find_field-absent fs k (ground arith))
      ]))

pub sample_feed_laws : FeedLaws sample
unfolding sample
sample_feed_laws = record {
  absent = λ fs k h. (0 ∷ [], find_field-absent fs k h);
  IsPlain = λ j. Unit {0};
  plain_null = tt;
  plain_bool = λ b. tt;
  plain_uint = λ n h. tt;
  plain_str = λ s h. tt;
  plain_fields = λ fs h. tt;
  plain_list = λ js h. tt;
  plain_dump = λ j s h. tt;
  dump_plain = λ j h. (dump j, refl);
}
