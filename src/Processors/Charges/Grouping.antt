-- ===== src/Processors/Charges/Grouping.antt =====
-- The index of the filters by their charge.
use mathlib.Core.List.{Permᴰ, append-nil, append_assoc}
use lago_paiement_engine.Prelude.{
  ◌≡◌, ◌≢◌, refl, ap, ◌∙◌, sym, subst, Bool, true, false, List, [], ◌∷◌, ◌++◌, String, str_eq,
  eq_iff, arith, if◌then◌else◌, Bool-cases, inl, inr, All, All-map, All-zip, All-Shuffle,
  Some-Shuffle, Some, keep, Shuffle,
}
use lago_paiement_engine.Models.FlatFilter.{FlatFilter}
use lago_paiement_engine.Processors.Enricher.{Charges}
use lago_paiement_engine.Processors.Charges.{add_to_charge, index_by_charge}

-- The filters of one charge, in their order.
abbrev pub filters_of : String → List FlatFilter → List FlatFilter
filters_of c = keep (λ f. str_eq f.charge_id c)

abbrev group_of : String → Charges → List FlatFilter
group_of c [] = []
group_of c ((k, fs) ∷ m) = if str_eq k c then fs else group_of c m

-- No charge stands twice in the index.
abbrev pub IsUnique : Charges → Type 0
IsUnique [] = Unit
IsUnique ((k, fs) ∷ m) = All (λ e. e.0 ≢ k) m × IsUnique m

group_of-add_to_charge :
    (c : String) (f : FlatFilter) (m : Charges)
    → group_of c (add_to_charge f m)
      ≡ (if str_eq f.charge_id c then group_of c m ++ f ∷ [] else group_of c m)
unfolding add_to_charge
group_of-add_to_charge c f [] = ground arith
group_of-add_to_charge c f ((k, fs) ∷ m) =
    ground
      (arith, group_of-add_to_charge c f m, eq_iff k f.charge_id, eq_iff f.charge_id c, eq_iff k c)

group_of-index_by_charge :
    (c : String) (m : Charges) (fs : List FlatFilter)
    → group_of c (index_by_charge m fs) ≡ group_of c m ++ filters_of c fs
unfolding index_by_charge
group_of-index_by_charge c m [] = sym (append-nil (group_of c m))
group_of-index_by_charge c m (f ∷ fs) =
    group_of-index_by_charge c (add_to_charge f m) fs
    ∙ ap (λ (l : List FlatFilter). l ++ filters_of c fs) (group_of-add_to_charge c f m)
    ∙ regroup (str_eq f.charge_id c)
  where
    regroup :
        (b : Bool)
        → (if b then group_of c m ++ f ∷ [] else group_of c m) ++ filters_of c fs
          ≡ group_of c m ++ (if b then f ∷ filters_of c fs else filters_of c fs)
    regroup true = append_assoc (group_of c m) (f ∷ []) (filters_of c fs)
    regroup false = refl

-- A property of all charges in the index.
All-add_to_charge :
    (P : String → Type 0) (f : FlatFilter) (m : Charges)
    → P f.charge_id
    → All (λ e. P e.0) m
    → All (λ e. P e.0) (add_to_charge f m)
unfolding add_to_charge
All-add_to_charge P f [] p h = (p, tt)
All-add_to_charge P f ((k, fs) ∷ m) p h = elim (Bool-cases (str_eq k f.charge_id)) [
  | inl same ↦ rw same h
  | inr other ↦ rw other (h.0, All-add_to_charge P f m p h.1)
]

IsUnique-add_to_charge : (f : FlatFilter) (m : Charges) → IsUnique m → IsUnique (add_to_charge f m)
unfolding add_to_charge
IsUnique-add_to_charge f [] u = (tt, tt)
IsUnique-add_to_charge f ((k, fs) ∷ m) u = elim (Bool-cases (str_eq k f.charge_id)) [
  | inl same ↦ rw same u
  | inr other ↦ rw other (
    All-add_to_charge (λ c. c ≢ k) f m (λ e. cc (other, (eq_iff k f.charge_id).1 (sym e))) u.0,
    IsUnique-add_to_charge f m u.1,
  )
]

IsUnique-index_by_charge :
    (m : Charges) (fs : List FlatFilter) → IsUnique m → IsUnique (index_by_charge m fs)
unfolding index_by_charge
IsUnique-index_by_charge m [] u = u
IsUnique-index_by_charge m (f ∷ fs) u =
    IsUnique-index_by_charge (add_to_charge f m) fs (IsUnique-add_to_charge f m u)

other :
    (k : String) (fs : List FlatFilter) (m : Charges) (c : String)
    → c ≢ k
    → group_of c m ≡ group_of c ((k, fs) ∷ m)
other k fs m c ne = elim (Bool-cases (str_eq k c)) [
  | inl same ↦ absurd (ne (sym ((eq_iff k c).0 same)))
  | inr differ ↦ rw differ
]

-- In a unique index each entry holds the group of its charge.
group_of-entries : (m : Charges) → IsUnique m → All (λ e. e.1 ≡ group_of e.0 m) m
group_of-entries [] u = tt
group_of-entries ((k, fs) ∷ m) u = (
  rw ((eq_iff k k).1 refl),
  All-zip m (λ e (ne : e.0 ≢ k) (h : e.1 ≡ group_of e.0 m). h ∙ other k fs m e.0 ne) u.0
      (group_of-entries m u.1),
)

append-ne-nil : (xs : List FlatFilter) (f : FlatFilter) → xs ++ f ∷ [] ≢ []
append-ne-nil [] f e = cc
append-ne-nil (x ∷ xs) f e = cc

nonempty-add_to_charge :
    (f : FlatFilter) (m : Charges) → All (λ e. e.1 ≢ []) m → All (λ e. e.1 ≢ []) (add_to_charge f m)
unfolding add_to_charge
nonempty-add_to_charge f [] h = (λ e. cc, tt)
nonempty-add_to_charge f ((k, fs) ∷ m) h = elim (Bool-cases (str_eq k f.charge_id)) [
  | inl same ↦ rw same (append-ne-nil fs f, h.1)
  | inr other ↦ rw other (h.0, nonempty-add_to_charge f m h.1)
]

nonempty-index_by_charge :
    (m : Charges) (fs : List FlatFilter)
    → All (λ e. e.1 ≢ []) m
    → All (λ e. e.1 ≢ []) (index_by_charge m fs)
unfolding index_by_charge
nonempty-index_by_charge m [] h = h
nonempty-index_by_charge m (f ∷ fs) h =
    nonempty-index_by_charge (add_to_charge f m) fs (nonempty-add_to_charge f m h)

-- Every charge of a filter is in the index.
abbrev pub HasCharge : String → Charges → Type 0
HasCharge c = Some (λ e. e.0 ≡ c)

HasCharge-add_to_charge_self :
    (f : FlatFilter) (m : Charges) → HasCharge f.charge_id (add_to_charge f m)
unfolding add_to_charge
HasCharge-add_to_charge_self f [] = inl refl
HasCharge-add_to_charge_self f ((k, fs) ∷ m) = elim (Bool-cases (str_eq k f.charge_id)) [
  | inl same ↦ rw same (inl ((eq_iff k f.charge_id).0 same))
  | inr differ ↦ rw differ (inr (HasCharge-add_to_charge_self f m))
]

HasCharge-add_to_charge :
    (c : String) (f : FlatFilter) (m : Charges) → HasCharge c m → HasCharge c (add_to_charge f m)
unfolding add_to_charge
HasCharge-add_to_charge c f ((k, fs) ∷ m) h = elim (Bool-cases (str_eq k f.charge_id)) [
  | inl same ↦ rw same h
  | inr differ ↦
      rw differ (elim h [ inl e ↦ inl e | inr s ↦ inr (HasCharge-add_to_charge c f m s) ])
]
HasCharge-add_to_charge c f [] h = absurd h

HasCharge-index_by_charge :
    (c : String) (m : Charges) (fs : List FlatFilter)
    → HasCharge c m
    → HasCharge c (index_by_charge m fs)
unfolding index_by_charge
HasCharge-index_by_charge c m [] h = h
HasCharge-index_by_charge c m (f ∷ fs) h =
    HasCharge-index_by_charge c (add_to_charge f m) fs (HasCharge-add_to_charge c f m h)

All-HasCharge :
    (m : Charges) (fs : List FlatFilter)
    → All (λ f. HasCharge f.charge_id (index_by_charge m fs)) fs
unfolding index_by_charge
All-HasCharge m [] = tt
All-HasCharge m (f ∷ fs) = (
  HasCharge-index_by_charge f.charge_id (add_to_charge f m) fs (HasCharge-add_to_charge_self f m),
  All-HasCharge (add_to_charge f m) fs,
)

-- The index of the filters: each charge stands in it once, with its filters, of which there are
-- some; and the charge of every filter stands in it.
pub record IsIndex (filters : List FlatFilter) (m : Charges) : Type 0 where
  pub unique : IsUnique m
  pub groups : All (λ e. e.1 ≡ filters_of e.0 filters) m
  pub nonempty : All (λ e. e.1 ≢ []) m
  pub covers : All (λ f. HasCharge f.charge_id m) filters

-- The index that `enrichWithChargeInfo` builds holds each charge once, with exactly the filters of
-- that charge in their order, of which there are some; and the charge of every filter is in it.
pub index_by_charge-IsIndex :
    (filters : List FlatFilter) → IsIndex filters (index_by_charge [] filters)
index_by_charge-IsIndex filters =
    let u = IsUnique-index_by_charge [] filters tt in
    record {
      unique = u;
      groups =
          All-map (index_by_charge [] filters)
            (λ e (h : e.1 ≡ group_of e.0 (index_by_charge [] filters)).
              h ∙ group_of-index_by_charge e.0 [] filters)
            (group_of-entries (index_by_charge [] filters) u);
      nonempty = nonempty-index_by_charge [] filters tt;
      covers = All-HasCharge [] filters;
    }

-- The order of the entries does not matter.
IsUnique-Shuffle : {m n : Charges} → Shuffle m n → IsUnique m → IsUnique n
IsUnique-Shuffle Permᴰ.nil u = u
IsUnique-Shuffle (Permᴰ.cons {a} {b} {l₁} {l₂} e p) u = (
  subst (λ (x : String × List FlatFilter). All (λ y. y.0 ≢ x.0) l₂) e (All-Shuffle _ p u.0),
  IsUnique-Shuffle p u.1,
)
IsUnique-Shuffle (Permᴰ.swap {a} {b} {a'} {b'} {l} e f) u =
    let ea = ap (λ (x : String × List FlatFilter). x.0) e in
    let fb = ap (λ (x : String × List FlatFilter). x.0) f in
    (
      (λ q. u.0.0 (fb ∙ sym q ∙ sym ea), subst (λ k. All (λ y. y.0 ≢ k) l) fb u.1.0),
      (subst (λ k. All (λ y. y.0 ≢ k) l) ea u.0.1, u.1.1),
    )
IsUnique-Shuffle (Permᴰ.trans p q) u = IsUnique-Shuffle q (IsUnique-Shuffle p u)

pub IsIndex-Shuffle :
    {filters : List FlatFilter} {m n : Charges}
    → Shuffle m n
    → IsIndex filters m
    → IsIndex filters n
IsIndex-Shuffle {filters} p h = record {
  unique = IsUnique-Shuffle p h.unique;
  groups = All-Shuffle _ p h.groups;
  nonempty = All-Shuffle _ p h.nonempty;
  covers = All-map filters (λ f s. Some-Shuffle _ p s) h.covers;
}
