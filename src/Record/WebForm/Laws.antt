-- ===== src/Record/WebForm/Laws.antt =====
-- What the page posts, and what it shows of a saved row.
use kall.Common.{
  String, ◌≡◌, refl, sym, ap, ◌∙◌, ◌≢◌, Bool, true, false, not, Option, none, some, List, [], ◌∷◌,
  ◌++◌, map, arith, eq_iff, eq_refl, keep, All, All-mem, keep-All, Mem-keep, Mem-map, Memᴰ,
  contains,
}
use kall.Common.Text.{is_nonempty, trim}
use kall.Common.Json.{Json, str, Fields, get_field}
use kall.Record.{RecordField}
use kall.Record.Values.{lookup, lookup-assign}
use kall.Record.MobileForm.Entries.{Misses, HasDistinctNames}
use kall.Record.WebForm.{
  read_field, put, read_from, structured, title_text, first_title, title_of, Detail, is_shown,
  detail_text, details_of,
}

module _ (lower : String → String) (to_number : String → Option String)
    (form : List (String × String)) where
  abbrev read_of : RecordField → Option Json
  read_of f = read_field lower to_number f (lookup f.name form)

  lookup-put :
      (name other : String) (v : Option Json) (acc : List (String × Json))
      → name ≢ other
      → lookup other (put lower to_number name v acc) ≡ lookup other acc
  lookup-put name other none acc h = refl
  lookup-put name other (some v) acc h =
      ground (arith, lookup-assign name other v acc, eq_iff name other)

  lookup-put_own :
      (name : String) (v : Option Json) (acc : List (String × Json))
      → lookup name acc ≡ none
      → lookup name (put lower to_number name v acc) ≡ v
  lookup-put_own name none acc h = h
  lookup-put_own name (some v) acc h = ground (arith, lookup-assign name name v acc, eq_refl name)

  lookup-read_from :
      (name : String) (fs : List RecordField) (acc : List (String × Json))
      → Misses name fs
      → lookup name (read_from lower to_number fs form acc) ≡ lookup name acc
  unfolding read_from
  lookup-read_from name [] acc h = refl
  lookup-read_from name (f ∷ fs) acc (h, hs) =
      lookup-read_from name fs (put lower to_number f.name (read_of f) acc) hs
      ∙ lookup-put f.name name (read_of f) acc h

  free_put :
      (name : String) (v : Option Json) (acc : List (String × Json)) (fs : List RecordField)
      → Misses name fs
      → All (λ f. lookup f.name acc ≡ none) fs
      → All (λ f. lookup f.name (put lower to_number name v acc) ≡ none) fs
  free_put name v acc [] h k = tt
  free_put name v acc (f ∷ fs) (h, hs) (k, ks) =
      (lookup-put name f.name v acc (λ e. h (sym e)) ∙ k, free_put name v acc fs hs ks)

  read_from-All :
      (fs : List RecordField) (acc : List (String × Json))
      → HasDistinctNames fs
      → All (λ f. lookup f.name acc ≡ none) fs
      → All (λ f. lookup f.name (read_from lower to_number fs form acc) ≡ read_of f) fs
  unfolding read_from
  read_from-All [] acc d k = tt
  read_from-All (f ∷ fs) acc (d, ds) (k, ks) = (
    lookup-read_from f.name fs (put lower to_number f.name (read_of f) acc) d
        ∙ lookup-put_own f.name (read_of f) acc k,
    read_from-All fs (put lower to_number f.name (read_of f) acc) ds
        (free_put f.name (read_of f) acc fs d ks),
  )

  none_yet : (fs : List RecordField) → All (λ f. lookup {V = Json} f.name [] ≡ none) fs
  unfolding lookup
  none_yet [] = tt
  none_yet (f ∷ fs) = (refl, none_yet fs)

  -- Where the fields of a section have distinct names, the page posts under each field's name what it
  -- reads for the field, and leaves out the fields for which it reads nothing.
  pub lookup-structured :
      (fs : List RecordField) (f : RecordField)
      → HasDistinctNames fs
      → Memᴰ f fs
      → lookup f.name (structured lower to_number fs form)
        ≡ read_field lower to_number f (lookup f.name form)
  unfolding structured
  lookup-structured fs f d m =
      All-mem (λ g. lookup g.name (read_from lower to_number fs form []) ≡ read_of g) fs
        (read_from-All fs [] d (none_yet fs)) m

  -- And it posts nothing else.
  pub lookup-structured_other :
      (fs : List RecordField) (name : String)
      → Misses name fs
      → lookup name (structured lower to_number fs form) ≡ none
  unfolding structured lookup
  lookup-structured_other fs name h = lookup-read_from name fs [] h

first_title-nonblank : (ts : List (Option String)) → is_nonempty (trim (first_title ts)) ≡ true
unfolding first_title trim
first_title-nonblank [] = refl
first_title-nonblank (none ∷ ts) = first_title-nonblank ts
first_title-nonblank (some s ∷ ts) = ground (arith, first_title-nonblank ts)

-- A saved row is never shown under a blank title.
pub title_of-nonblank :
    (row : Fields) (names : List String) → is_nonempty (trim (title_of row names)) ≡ true
unfolding title_of
title_of-nonblank row names =
    first_title-nonblank (map (λ name. title_text (get_field name row)) names)

-- What `titleOf` passes over.
unfoldable pub is_blank_title : Option String → Bool
unfolding trim
is_blank_title none = true
is_blank_title (some s) = not (is_nonempty (trim s))

first_title-blank :
    (t : Option String) (ts : List (Option String))
    → is_blank_title t ≡ true
    → first_title (t ∷ ts) ≡ first_title ts
unfolding first_title is_blank_title
first_title-blank none ts h = refl
first_title-blank (some s) ts h = ground arith

first_title-text :
    (s : String) (ts : List (Option String))
    → is_nonempty (trim s) ≡ true
    → first_title (some s ∷ ts) ≡ s
unfolding first_title
first_title-text s ts k = rw k refl

first_title-skips :
    (before : List String) (after : List (Option String)) (row : Fields) (s : String)
    → All (λ name. is_blank_title (title_text (get_field name row)) ≡ true) before
    → is_nonempty (trim s) ≡ true
    → first_title (map (λ name. title_text (get_field name row)) before ++ some s ∷ after) ≡ s
first_title-skips [] after row s h k = first_title-text s after k
first_title-skips (name ∷ before) after row s (h, hs) k =
    first_title-blank (title_text (get_field name row))
      (map (λ other. title_text (get_field other row)) before ++ some s ∷ after) h
    ∙ first_title-skips before after row s hs k

map_append_cons :
    (g : String → Option String) (before after : List String) (name : String)
    → map g (before ++ name ∷ after) ≡ map g before ++ g name ∷ map g after
map_append_cons g [] after name = refl
map_append_cons g (x ∷ before) after name =
    ap (λ ts. g x ∷ ts) (map_append_cons g before after name)

-- A saved row is titled by the first of the title fields that holds a text with more than white space, and
-- by that text as it was saved.
pub title_of-first :
    (row : Fields) (before after : List String) (name s : String)
    → All (λ other. is_blank_title (title_text (get_field other row)) ≡ true) before
    → get_field name row ≡ some (str s)
    → is_nonempty (trim s) ≡ true
    → title_of row (before ++ name ∷ after) ≡ s
unfolding title_of
title_of-first row before after name s h e k =
    ap first_title (
      map_append_cons (λ other. title_text (get_field other row)) before after name
      ∙ ap
          (λ t.
            map (λ other. title_text (get_field other row)) before
            ++ title_text t ∷ map (λ other. title_text (get_field other row)) after)
          e)
    ∙ first_title-skips before (map (λ other. title_text (get_field other row)) after) row s h k

-- Each detail of a saved row has a text to show.
pub details_of-nonempty :
    (row : Fields) (fields : List RecordField) (title_fields : List String) (d : Detail)
    → Memᴰ d (details_of row fields title_fields)
    → is_nonempty d.value ≡ true
unfolding details_of
details_of-nonempty row fields title_fields d m =
    All-mem (λ e. is_nonempty e.value ≡ true) (details_of row fields title_fields)
      (keep-All (λ e. is_nonempty e.value)
        (map (λ f. record { label = f.label; value = detail_text (get_field f.name row) })
          (keep (λ f. is_shown (get_field f.name row))
            (keep (λ f. not (contains f.name title_fields)) fields))))
      m

-- And no field is lost: one that is not part of the title, whose value counts as shown and has a text, is
-- among the details, with its label.
pub details_of-complete :
    (row : Fields) (fields : List RecordField) (title_fields : List String) (f : RecordField)
    → Memᴰ f fields
    → contains f.name title_fields ≡ false
    → is_shown (get_field f.name row) ≡ true
    → is_nonempty (detail_text (get_field f.name row)) ≡ true
    → Memᴰ
        (record { label = f.label; value = detail_text (get_field f.name row) })
        (details_of row fields title_fields)
unfolding details_of
details_of-complete row fields title_fields f m h k n =
    Mem-keep (λ d. is_nonempty d.value) (map detail shown)
      (Mem-map detail shown (Mem-keep is_here rest (Mem-keep is_other fields m (ap not h)) k)) n
  where
    detail : RecordField → Detail
    detail g = record { label = g.label; value = detail_text (get_field g.name row) }

    is_here : RecordField → Bool
    is_here g = is_shown (get_field g.name row)

    is_other : RecordField → Bool
    is_other g = not (contains g.name title_fields)

    rest : List RecordField
    rest = keep is_other fields

    shown : List RecordField
    shown = keep is_here rest
