-- ===== src/Qualification/Corpus.antt =====
-- packages/bridge/src/qualification-session.ts: the committed corpus, whose payloads are made from
-- patterns, and the ordered cases. SHA-256 is node's and a parameter: `seed` is the number that
-- opens the digest of the seed's text, and `digest` the digest of a payload in hexadecimal. An
-- entry's number is the one that its id ends with.
use fipwave.Common.{
  ℕ, zero, suc, ◌+◌, ◌*◌, ◌/◌, ◌%◌, ◌^◌, ◌≡◌, ◌⊎◌, inl, inr, refl, ap, ◌==◌, true, false, not, Bool,
  Bool-cases, if◌then◌else◌, List, [], ◌∷◌, ◌++◌, map, All, Result, ok, err, ◌>>=◌,
}
use fipwave.Common.Texts.{same_text, same_text_iff}
use fipwave.Qualification.{LiteralDirection, a_to_b, b_to_a, QualificationCase}
use Prim.Native.String.{String}

pub data CorpusPattern : Type 0 where
  all_zero all_ff incrementing alternating pseudorandom : CorpusPattern

pub record CorpusManifestCase : Type 0 where
  pub id : String
  pub direction : LiteralDirection
  pub size : ℕ
  pub pattern : CorpusPattern
  pub sha256 : String
  pub number : ℕ

-- The bytes from an offset on.
abbrev pub bytes_from : (ℕ → ℕ) → ℕ → ℕ → List ℕ
bytes_from byte offset zero = []
bytes_from byte offset (suc left) = byte offset ∷ bytes_from byte (offset + 1) left

-- `(state * 1664525 + 1013904223) >>> 0`
abbrev pub next_state : ℕ → ℕ
next_state state = (state * 1664525 + 1013904223) % 2 ^ 32

abbrev pub random_bytes : ℕ → ℕ → List ℕ
random_bytes state zero = []
random_bytes state (suc left) = (next_state state / 2 ^ 24) ∷ random_bytes (next_state state) left

abbrev pub alternate : ℕ → ℕ → ℕ
alternate number offset = if (offset + number + 1) % 2 == 1 then 0x55 else 0xaa

-- `index` is `number - 1`, so what is added to an offset is `number + 255` modulo 256.
unfoldable pub payload_of : CorpusPattern → ℕ → ℕ → ℕ → List ℕ
payload_of all_zero seed number size = bytes_from (λ _. 0) 0 size
payload_of all_ff seed number size = bytes_from (λ _. 0xff) 0 size
payload_of incrementing seed number size =
    bytes_from (λ offset. (offset + number + 255) % 256) 0 size
payload_of alternating seed number size = bytes_from (alternate number) 0 size
payload_of pseudorandom seed number size = random_bytes seed size

pub record Hashes : Type 0 where
  pub seed : LiteralDirection → ℕ → ℕ → ℕ
  pub digest : List ℕ → String

unfoldable pub manifest_payload : Hashes → CorpusManifestCase → List ℕ
manifest_payload hashes entry =
    payload_of entry.pattern (hashes.seed entry.direction entry.size entry.number) entry.number
      entry.size

-- A case with its payload.
abbrev pub PayloadCase : Type 0
PayloadCase = QualificationCase × List ℕ

pub data CorpusError : Type 0 where
  payload_drift : String → CorpusError

unfoldable pub corpus_case : Hashes → CorpusManifestCase → Result CorpusError PayloadCase
corpus_case hashes entry =
    if not (same_text (hashes.digest (manifest_payload hashes entry)) entry.sha256)
    then err (payload_drift entry.id)
    else ok (
      record { id = entry.id; direction = entry.direction; cold = false },
      manifest_payload hashes entry,
    )

unfoldable pub corpus_cases :
    Hashes → List CorpusManifestCase → Result CorpusError (List PayloadCase)
corpus_cases hashes [] = ok []
corpus_cases hashes (entry ∷ entries) =
    let rest = corpus_cases hashes entries in
    do one ← corpus_case hashes entry; others ← rest; ok (one ∷ others)

unfoldable pub cold_case : String → LiteralDirection → ℕ → PayloadCase
cold_case id direction fill =
    (record { id = id; direction = direction; cold = true }, bytes_from (λ _. fill) 0 256)

unfoldable pub ordered_cases :
    Hashes → List CorpusManifestCase → Result CorpusError (List PayloadCase)
ordered_cases hashes entries = do
  corpus ← corpus_cases hashes entries
  ok (
      cold_case "cyrinx-cold-a-to-b" a_to_b 0x3c
      ∷ cold_case "cyrinx-cold-b-to-a" b_to_a 0xc3
      ∷ corpus)

-- The payload of an entry has the digest that the manifest commits to.
abbrev pub Committed : Hashes → CorpusManifestCase → Type 0
Committed hashes entry = hashes.digest (manifest_payload hashes entry) ≡ entry.sha256

-- An entry as a case, with its payload.
abbrev pub case_of : Hashes → CorpusManifestCase → PayloadCase
case_of hashes entry = (
  record { id = entry.id; direction = entry.direction; cold = false },
  manifest_payload hashes entry,
)

-- The first entry whose payload has another digest.
pub record Drift (hashes : Hashes) (entries : List CorpusManifestCase) : Type 0 where
  pub before : List CorpusManifestCase
  pub entry : CorpusManifestCase
  pub after : List CorpusManifestCase
  pub split : entries ≡ before ++ (entry ∷ after)
  pub committed : All (Committed hashes) before
  pub drifted : ¬ Committed hashes entry

corpus_case-Committed :
    (hashes : Hashes) (entry : CorpusManifestCase)
    → Committed hashes entry
    → corpus_case hashes entry ≡ ok (case_of hashes entry)
unfolding corpus_case
corpus_case-Committed hashes entry e =
    let digest = hashes.digest (manifest_payload hashes entry) in
    rw ((same_text_iff digest entry.sha256).1 e) refl

corpus_case_drifted :
    (hashes : Hashes) (entry : CorpusManifestCase)
    → same_text (hashes.digest (manifest_payload hashes entry)) entry.sha256 ≡ false
    → corpus_case hashes entry ≡ err (payload_drift entry.id)
unfolding corpus_case
corpus_case_drifted hashes entry e = rw (e) refl

-- The corpus of the entries, or the error of the first one that has drifted.
abbrev Outcome : Hashes → List CorpusManifestCase → Type 0
Outcome hashes entries =
    (All (Committed hashes) entries
      × (corpus_cases hashes entries ≡ ok (map (case_of hashes) entries)))
    ⊎ ((d : Drift hashes entries) × (corpus_cases hashes entries ≡ err (payload_drift d.entry.id)))

corpus_outcome : (hashes : Hashes) (entries : List CorpusManifestCase) → Outcome hashes entries
unfolding corpus_cases
corpus_outcome hashes [] = inl (tt, refl)
corpus_outcome hashes (entry ∷ entries) =
    let digest = hashes.digest (manifest_payload hashes entry) in
    elim (Bool-cases (same_text digest entry.sha256)) [
      | inl same ↦
          let committed = (same_text_iff digest entry.sha256).0 same in
          later committed (corpus_case-Committed hashes entry committed)
            (corpus_outcome hashes entries)
      | inr other ↦ inr (
        record {
          before = [];
          entry = entry;
          after = entries;
          split = refl;
          committed = tt;
          drifted = λ c. differs ((same_text_iff digest entry.sha256).1 c) other;
        },
        rw (corpus_case_drifted hashes entry other) refl,
      )
    ]
  where
    differs : {b : Bool} → b ≡ true → b ≡ false → ⊥
    differs e f = cc

    later :
        Committed hashes entry
        → corpus_case hashes entry ≡ ok (case_of hashes entry)
        → Outcome hashes entries
        → Outcome hashes (entry ∷ entries)
    later c e (inl (all, rest)) = inl ((c, all), rw (e, rest) refl)
    later c e (inr (d, rest)) = inr (
      record {
        before = entry ∷ d.before;
        entry = d.entry;
        after = d.after;
        split = ap (◌∷◌ entry) d.split;
        committed = (c, d.committed);
        drifted = d.drifted;
      },
      rw (e, rest) refl,
    )

-- The ordered cases are the two cold ones and then, in the manifest's order, a case for each entry
-- with its payload, if each payload has the digest that the manifest commits to; otherwise the code
-- throws for the first entry whose payload has another digest.
pub ordered_cases_lem :
    (hashes : Hashes) (entries : List CorpusManifestCase)
    → (All (Committed hashes) entries
        × (ordered_cases hashes entries
            ≡ ok (
                cold_case "cyrinx-cold-a-to-b" a_to_b 0x3c
                ∷ cold_case "cyrinx-cold-b-to-a" b_to_a 0xc3
                ∷ map (case_of hashes) entries)))
      ⊎ ((d : Drift hashes entries) × (ordered_cases hashes entries
            ≡ err (payload_drift d.entry.id)))
unfolding ordered_cases
ordered_cases_lem hashes entries = elim (corpus_outcome hashes entries) [
  | inl (all, cases) ↦ inl (all, rw (cases) refl)
  | inr (drift, error) ↦ inr (drift, rw (error) refl)
]
