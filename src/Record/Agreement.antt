-- ===== src/Record/Agreement.antt =====
-- The web's table of sections and the phone's, side by side.
use kall.Common.{
  String, ◌≡◌, refl, inl, inr, Bool, true, false, not, ◌&&◌, none, some, List, [], ◌∷◌, map, arith,
  str_eq, eq_iff, eq_refl, Bool-cases, keep, All, contains,
}
use kall.Record.{RecordField}
use mathlib.Core.Path.{subst}
use mathlib.Core.Option.{some-injective}
use kall.Record.Values.{lookup}
use kall.Record.WebSchemas
use kall.Record.MobileSchemas
use kall.Record.MobileForm.Entries.{Misses, HasDistinctNames}

-- What a field asks for, without the phone's own marks.
abbrev pub asked : RecordField → RecordField
asked f = record f { help = none; sensitive = false }

abbrev pub differs : List String → Bool
differs [] = true
differs (s ∷ ss) = not (contains s ss) && differs ss

abbrev pub names : List RecordField → List String
names fs = map (λ f. f.name) fs

differs-Misses :
    (name : String) (fs : List RecordField) → contains name (names fs) ≡ false → Misses name fs
differs-Misses name [] h = tt
differs-Misses name (f ∷ fs) h = (
  (λ e. ground (arith, e, eq_iff f.name name, eq_refl name)),
  differs-Misses name fs (ground arith),
)

pub differs-HasDistinctNames :
    (fs : List RecordField) → differs (names fs) ≡ true → HasDistinctNames fs
differs-HasDistinctNames [] h = tt
differs-HasDistinctNames (f ∷ fs) h =
    (differs-Misses f.name fs (ground arith), differs-HasDistinctNames fs (ground arith))

module _ {ℓ} {V : Type ℓ} where
  lookup-All {κ} :
      (P : String → V → Type κ) (k : String) (m : List (String × V)) (v : V)
      → All (λ e. P e.0 e.1) m
      → lookup k m ≡ some v
      → P k v
  unfolding lookup
  lookup-All P k [] v h e = cc
  lookup-All P k ((j, w) ∷ m) v (h, hs) e = elim (Bool-cases (str_eq j k)) [
    | inl same ↦
        subst (λ u. P k u) (some-injective w v (rw same at e))
          (subst (λ i. P i w) ((eq_iff j k).0 same) h)
    | inr other ↦ lookup-All P k m v hs (rw other at e)
  ]

All-distinct : All (λ e. differs (names e.1.fields) ≡ true) MobileSchemas.record_schemas
All-distinct = (
  refl,
  (
    refl,
    (
      refl,
      (refl, (refl, (refl, (refl, (refl, (refl, (refl, (refl, (refl, (refl, (refl, tt))))))))))),
    ),
  ),
)

-- In each section of the phone's table the names of the fields are distinct.
pub section-HasDistinctNames :
    (key : String) (s : MobileSchemas.RecordSchema)
    → lookup key MobileSchemas.record_schemas ≡ some s
    → HasDistinctNames s.fields
section-HasDistinctNames key s e = differs-HasDistinctNames s.fields (
    lookup-All (λ _ v. differs (names v.fields) ≡ true) key MobileSchemas.record_schemas s
      All-distinct e)

-- What the phone's table must have for a section of the web's.
abbrev pub Matches : String → WebSchemas.RecordSchema → Type 0
Matches key w =
    (m : MobileSchemas.RecordSchema) × (lookup key MobileSchemas.record_schemas ≡ some m)
    × (map asked (keep (λ f. not f.sensitive) m.fields) ≡ map asked w.fields)
    × (m.singular ≡ w.singular)
    × (m.title_fields ≡ w.title_fields)

All-match : All (λ e. Matches e.0 e.1) WebSchemas.record_schemas
unfolding lookup
All-match = (
  (MobileSchemas.skills_schema, refl, refl, refl, refl),
  (
    (MobileSchemas.education_schema, refl, refl, refl, refl),
    (
      (MobileSchemas.certifications_schema, refl, refl, refl, refl),
      (
        (MobileSchemas.clearances_schema, refl, refl, refl, refl),
        (
          (MobileSchemas.languages_schema, refl, refl, refl, refl),
          (
            (MobileSchemas.awards_schema, refl, refl, refl, refl),
            (
              (MobileSchemas.publications_schema, refl, refl, refl, refl),
              (
                (MobileSchemas.patents_schema, refl, refl, refl, refl),
                (
                  (MobileSchemas.speaking_schema, refl, refl, refl, refl),
                  (
                    (MobileSchemas.memberships_schema, refl, refl, refl, refl),
                    (
                      (MobileSchemas.service_schema, refl, refl, refl, refl),
                      (
                        (MobileSchemas.references_schema, refl, refl, refl, refl),
                        ((MobileSchemas.contacts_schema, refl, refl, refl, refl), tt),
                      ),
                    ),
                  ),
                ),
              ),
            ),
          ),
        ),
      ),
    ),
  ),
)

-- Every section of the web's table is one of the phone's, and asks there for the same fields in the same
-- order, each with the same label, kind and options and required or not, besides the phone's sensitive
-- ones; its rows are named and titled alike.
pub section-Matches :
    (key : String) (w : WebSchemas.RecordSchema)
    → lookup key WebSchemas.record_schemas ≡ some w
    → Matches key w
section-Matches key w e = lookup-All Matches key WebSchemas.record_schemas w All-match e
