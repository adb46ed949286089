-- ===== src/Utils/Json/RoundTrip.antt =====
-- Values that JSON can carry, and that they are read back from their text.
use lago_paiement_engine.Prelude.{
  ◌≡◌, refl, sym, ap, ◌∙◌, subst, ◌⊎◌, inl, inr, Option, List, [], ◌∷◌, String, Bytes, All, true,
}
use lago_paiement_engine.Utils.Result.{Error}
use lago_paiement_engine.Utils.Float.{Float64}
use lago_paiement_engine.Utils.Value.{
  Value, nil, bool, int, int64, float64, string, list, object, Items, no_items, item, Fields,
  no_fields, field,
}
use lago_paiement_engine.Utils.Json.{
  Json, null, boolean, number, text, array, members, Elements, no_elements, element, Members,
  no_members, member, Codec, key_lt, put_absent, fields_of, entries, decode_number, decode_any,
  decode_elements, decode_members, number_text, array_of, members_of, element_of, member_of,
  sequence, encode_any, encode_items, encode_fields,
}
use lago_paiement_engine.Utils.Json.Keys.{
  IsAbove, IsSorted, IsSorted-put_absent, put_absent-IsAbove, All-put_absent,
}

module _ (c : Codec) where
  -- A number that JSON can carry.
  abbrev pub IsEncodable : Float64 → Type 0
  IsEncodable f = (b : Bytes) × (c.float_text f ≡ inr b) × (c.float_of b ≡ inr f)

  -- What the package promises: a quoted text is unquoted to itself, and a number that is read from
  -- JSON is written so that it is read back.
  pub record IsCodec : Type 0 where
    pub quoted : (s : String) → c.unquote (c.quote s) ≡ s
    pub numbers : (b : Bytes) (f : Float64) → c.float_of b ≡ inr f → IsEncodable f

  -- The kinds of value that are read from JSON, their maps in the order of the keys.
  unfoldable mutual
    pub IsCanonical : Value → Type 0
    IsCanonical nil = Unit
    IsCanonical (bool b) = Unit
    IsCanonical (int n) = ⊥
    IsCanonical (int64 n) = ⊥
    IsCanonical (float64 f) = IsEncodable f
    IsCanonical (string s) = Unit
    IsCanonical (list xs) = AreCanonical xs
    IsCanonical (object fs) = HaveCanonical fs × IsSorted (entries fs)

    pub AreCanonical : Items → Type 0
    AreCanonical no_items = Unit
    AreCanonical (item v xs) = IsCanonical v × AreCanonical xs

    pub HaveCanonical : Fields → Type 0
    HaveCanonical no_fields = Unit
    HaveCanonical (field k v fs) = IsCanonical v × HaveCanonical fs

  abbrev pub HasCanonical : String × Value → Type 0
  HasCanonical e = IsCanonical e.1

  pub HaveCanonical-fields_of :
      (m : List (String × Value)) → All HasCanonical m → HaveCanonical (fields_of m)
  unfolding IsCanonical AreCanonical HaveCanonical
  HaveCanonical-fields_of [] h = tt
  HaveCanonical-fields_of ((k, v) ∷ m) h = (h.0, HaveCanonical-fields_of m h.1)

  pub entries-fields_of : (m : List (String × Value)) → entries (fields_of m) ≡ m
  entries-fields_of [] = refl
  entries-fields_of ((k, v) ∷ m) = ap (λ l. (k, v) ∷ l) (entries-fields_of m)

  module _ (laws : IsCodec) where
    decode_number-IsCanonical :
        (b : Bytes) (r : Error ⊎ Float64) (saved : Option Error)
        → c.float_of b ≡ r
        → IsCanonical (decode_number r saved).0
    unfolding IsCanonical AreCanonical HaveCanonical
    decode_number-IsCanonical b (inl e) saved h = tt
    decode_number-IsCanonical b (inr f) saved h = laws.numbers b f h

    mutual
      unfolding decode_any decode_elements decode_members IsCanonical AreCanonical HaveCanonical

      pub decode_any-IsCanonical :
          (j : Json) (saved : Option Error) → IsCanonical (decode_any c j saved).0
      decode_any-IsCanonical null saved = tt
      decode_any-IsCanonical (boolean b) saved = tt
      decode_any-IsCanonical (number b) saved =
          decode_number-IsCanonical b (c.float_of b) saved refl
      decode_any-IsCanonical (text raw) saved = tt
      decode_any-IsCanonical (array es) saved = decode_elements-AreCanonical es saved
      decode_any-IsCanonical (members ms) saved =
          let (all, sorted) = decode_members-IsSorted ms saved in
          (
            HaveCanonical-fields_of (decode_members c ms saved).0 all,
            subst IsSorted (sym (entries-fields_of (decode_members c ms saved).0)) sorted,
          )

      decode_elements-AreCanonical :
          (es : Elements) (saved : Option Error) → AreCanonical (decode_elements c es saved).0
      decode_elements-AreCanonical no_elements saved = tt
      decode_elements-AreCanonical (element j es) saved =
          (decode_any-IsCanonical j saved, decode_elements-AreCanonical es (decode_any c j saved).1)

      pub decode_members-IsSorted :
          (ms : Members) (saved : Option Error)
          → All HasCanonical (decode_members c ms saved).0 × IsSorted (decode_members c ms saved).0
      decode_members-IsSorted no_members saved = (tt, tt)
      decode_members-IsSorted (member k j ms) saved =
          let (all, sorted) = decode_members-IsSorted ms (decode_any c j saved).1 in
          (
            All-put_absent HasCanonical k (decode_any c j saved).0
                (decode_members c ms (decode_any c j saved).1).0 (decode_any-IsCanonical j saved)
                all,
            IsSorted-put_absent k (decode_any c j saved).0
                (decode_members c ms (decode_any c j saved).1).0 sorted,
          )

    -- A value's text, which is read back as the value.
    abbrev pub IsRead : Value → Type 0
    IsRead v =
        (j : Json) × (encode_any c v ≡ inr j)
        × ((saved : Option Error) → decode_any c j saved ≡ (v, saved))

    abbrev AreRead : Items → Type 0
    AreRead xs =
        (es : Elements) × (encode_items c xs ≡ inr es)
        × ((saved : Option Error) → decode_elements c es saved ≡ (xs, saved))

    abbrev pub HaveRead : Fields → Type 0
    HaveRead fs =
        (ms : Members) × (sequence (encode_fields c fs) ≡ inr ms)
        × ((saved : Option Error) → decode_members c ms saved ≡ (entries fs, saved))

    encode_fields-IsAbove :
        (k : String) (fs : Fields) → IsAbove k (entries fs) → IsAbove k (encode_fields c fs)
    unfolding encode_any encode_items encode_fields
    encode_fields-IsAbove k no_fields h = tt
    encode_fields-IsAbove k (field j v fs) h =
        All-put_absent (λ e. key_lt k e.0 ≡ true) j (encode_any c v) (encode_fields c fs) h.0
          (encode_fields-IsAbove k fs h.1)

    fields_of-entries : (fs : Fields) → fields_of (entries fs) ≡ fs
    fields_of-entries no_fields = refl
    fields_of-entries (field k v fs) = ap (field k v) (fields_of-entries fs)

    member-HaveRead :
        (k : String) (v : Value) (fs : Fields)
        → IsAbove k (entries fs)
        → IsRead v
        → HaveRead fs
        → HaveRead (field k v fs)
    unfolding decode_any decode_elements decode_members encode_any encode_items encode_fields
    member-HaveRead k v fs above (j, e, r) (ms, e', r') = (
      member k j ms,
      ap sequence (
            put_absent-IsAbove k (encode_any c v) (encode_fields c fs)
              (encode_fields-IsAbove k fs above))
          ∙ ap (λ x. member_of k x (sequence (encode_fields c fs))) e
          ∙ ap (λ x. member_of k (inr j) x) e',
      λ saved.
          ap
            (λ (x : Value × Option Error).
              (put_absent k x.0 (decode_members c ms x.1).0, (decode_members c ms x.1).1))
            (r saved)
          ∙ ap (λ (x : List (String × Value) × Option Error). (put_absent k v x.0, x.1)) (r' saved)
          ∙ ap (λ m. (m, saved)) (put_absent-IsAbove k v (entries fs) above),
    )

    mutual
      unfolding decode_any decode_elements decode_members encode_any encode_items encode_fields
          IsCanonical AreCanonical HaveCanonical

      pub IsCanonical-IsRead : (v : Value) → IsCanonical v → IsRead v
      IsCanonical-IsRead nil h = (null, refl, λ saved. refl)
      IsCanonical-IsRead (bool b) h = (boolean b, refl, λ saved. refl)
      IsCanonical-IsRead (int n) h = absurd h
      IsCanonical-IsRead (int64 n) h = absurd h
      IsCanonical-IsRead (float64 f) h =
          (number h.0, ap number_text h.1, λ saved. ap (λ r. decode_number r saved) h.2)
      IsCanonical-IsRead (string s) h =
          (text (c.quote s), refl, λ saved. ap (λ t. (string t, saved)) (laws.quoted s))
      IsCanonical-IsRead (list xs) h =
          let (es, e, r) = AreCanonical-AreRead xs h in
          (
            array es,
            ap array_of e,
            λ saved. ap (λ (x : Items × Option Error). (list x.0, x.1)) (r saved),
          )
      IsCanonical-IsRead (object fs) h =
          let (ms, e, r) = HaveCanonical-HaveRead fs h.0 h.1 in
          (
            members ms,
            ap members_of e,
            λ saved.
                ap (λ (x : List (String × Value) × Option Error). (object (fields_of x.0), x.1))
                  (r saved)
                ∙ ap (λ x. (object x, saved)) (fields_of-entries fs),
          )

      AreCanonical-AreRead : (xs : Items) → AreCanonical xs → AreRead xs
      AreCanonical-AreRead no_items h = (no_elements, refl, λ saved. refl)
      AreCanonical-AreRead (item v xs) h =
          let (j, e, r) = IsCanonical-IsRead v h.0 in
          let (es, e', r') = AreCanonical-AreRead xs h.1 in
          (
            element j es,
            ap (λ x. element_of x (encode_items c xs)) e ∙ ap (element_of (inr j)) e',
            λ saved.
                ap
                  (λ (x : Value × Option Error).
                    (item x.0 (decode_elements c es x.1).0, (decode_elements c es x.1).1))
                  (r saved)
                ∙ ap (λ (x : Items × Option Error). (item v x.0, x.1)) (r' saved),
          )

      pub HaveCanonical-HaveRead :
          (fs : Fields) → HaveCanonical fs → IsSorted (entries fs) → HaveRead fs
      HaveCanonical-HaveRead no_fields h s = (no_members, refl, λ saved. refl)
      HaveCanonical-HaveRead (field k v fs) h s =
          member-HaveRead k v fs s.0 (IsCanonical-IsRead v h.0) (HaveCanonical-HaveRead fs h.1 s.1)
