-- ===== src/Tracing/Tags.antt =====
-- The tags that options set.
use lago_paiement_engine.Prelude.{
  ◌≡◌, refl, ap, sym, ◌∙◌, Bool, true, false, Option, none, some, inl, inr, List, [], ◌∷◌, String,
  str_eq, eq_iff, if◌then◌else◌, Bool-cases,
}
use lago_paiement_engine.Utils.Value.{Value}
use lago_paiement_engine.Tracing.Span.{
  Entries, put, SpanConfig, SpanOption, made, with_tag, configured, span_config,
}
use lago_paiement_engine.Tracing.Writes.{or_else, last, lookup, IsMap}

-- The options that set tags.
abbrev pub tag_options : Entries → List SpanOption
tag_options [] = []
tag_options ((k, v) ∷ tags) = with_tag k v ∷ tag_options tags

if_twice :
    {A : Type 0} (b : Bool) (x y z : A)
    → (if b then x else z) ≡ (if b then x else if b then y else z)
if_twice true x y z = refl
if_twice false x y z = refl

differ_from : (i j k : String) → str_eq i j ≡ false → str_eq i k ≡ true → str_eq j k ≡ false
differ_from i j k h here = elim (Bool-cases (str_eq j k)) [
  | inr differ ↦ differ
  | inl same ↦ cc (h, (eq_iff i j).1 ((eq_iff i k).0 here ∙ sym ((eq_iff j k).0 same)))
]

differ_symm : (j i : String) → str_eq i j ≡ false → str_eq j i ≡ false
differ_symm j i h = elim (Bool-cases (str_eq j i)) [
  | inr differ ↦ differ
  | inl same ↦ cc (h, (eq_iff i j).1 (sym ((eq_iff j i).0 same)))
]

lookup-put :
    (k j : String) (v : Value) (m : Entries)
    → lookup k (put j v m) ≡ (if str_eq j k then some v else lookup k m)
lookup-put k j v [] = refl
lookup-put k j v ((i, u) ∷ m) = elim (Bool-cases (str_eq i j)) [
  | inl same ↦ rw (same, (eq_iff i j).0 same) (if_twice (str_eq j k) (some v) (some u) (lookup k m))
  | inr differ ↦ rw differ (elim (Bool-cases (str_eq i k)) [
    | inl here ↦ rw (here, differ_from i j k differ here) refl
    | inr there ↦ rw there (lookup-put k j v m)
  ])
]

put-IsMap : (j : String) (v : Value) (m : Entries) → IsMap m → IsMap (put j v m)
put-IsMap j v [] h = (refl, tt)
put-IsMap j v ((i, u) ∷ m) h = elim (Bool-cases (str_eq i j)) [
  | inl same ↦ rw same (ap (λ x. lookup x m) (sym ((eq_iff i j).0 same)) ∙ h.0, h.1)
  | inr differ ↦
      rw differ (lookup-put i j v m ∙ (rw (differ_symm j i differ) h.0), put-IsMap j v m h.1)
]

-- The configuration that the options make, from one that has a map of tags and no attributes.
pub tagged : Entries → Entries → Entries
tagged m [] = m
tagged m ((k, v) ∷ tags) = tagged (put k v m) tags

pub tagged-IsMap : (m tags : Entries) → IsMap m → IsMap (tagged m tags)
unfolding tagged
tagged-IsMap m [] h = h
tagged-IsMap m ((k, v) ∷ tags) h = tagged-IsMap (put k v m) tags (put-IsMap k v m h)

pub lookup-tagged :
    (k : String) (m tags : Entries) → lookup k (tagged m tags) ≡ or_else (last k tags) (lookup k m)
unfolding tagged
lookup-tagged k m [] = refl
lookup-tagged k m ((j, v) ∷ tags) =
    lookup-tagged k (put j v m) tags
    ∙ ap (or_else (last k tags)) (lookup-put k j v m)
    ∙ regroup (last k tags) (str_eq j k)
  where
    regroup :
        (o : Option Value) (b : Bool)
        → or_else o (if b then some v else lookup k m)
          ≡ or_else (or_else o (if b then some v else none)) (lookup k m)
    regroup (some u) b = refl
    regroup none true = refl
    regroup none false = refl

configured-tags :
    (m tags : Entries)
    → configured (record { tags = some m; attributes = none }) (tag_options tags)
      ≡ record { tags = some (tagged m tags); attributes = none }
unfolding tagged
configured-tags m [] = refl
configured-tags m ((k, v) ∷ tags) = configured-tags (put k v m) tags

-- The configuration of a span with tags.
pub span_config-tags :
    (tags : Entries)
    → (made (span_config (tag_options tags)).tags ≡ tagged [] tags)
      × ((span_config (tag_options tags)).attributes ≡ none)
unfolding tagged
span_config-tags [] = (refl, refl)
span_config-tags ((k, v) ∷ tags) =
    let e = configured-tags ((k, v) ∷ []) tags in
    (ap (λ (c : SpanConfig). made c.tags) e, ap (λ (c : SpanConfig). c.attributes) e)
