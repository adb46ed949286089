-- ===== src/Startup/Options.antt =====
-- The options of a Kafka client.
use lago_paiement_engine.Prelude.{
  ◌≡◌, ◌≢◌, ◌↔◌, ◌⊎◌, refl, inl, inr, Bool, true, false, List, [], ◌∷◌, ◌++◌, codes, Bool-cases,
  All, Some, All-Some, Some-append, Some-append_left, Some-append_right, if◌then◌else◌, arith,
}
use lago_paiement_engine.Utils.Env.{Runes, runes_eq, is_empty}
use lago_paiement_engine.Startup.{Opt, seed_brokers, with_logger, with_hooks, nil_opt, dial_tls}
use lago_paiement_engine.Startup.Client.{ServerConfig, scram_opt, client_opts}

pub runes_eq_iff : (s t : Runes) → (runes_eq s t ≡ true) ↔ (s ≡ t)
runes_eq_iff [] [] = (λ e. refl, λ e. refl)
runes_eq_iff [] (d ∷ t) = (λ e. cc, λ e. cc)
runes_eq_iff (c ∷ s) [] = (λ e. cc, λ e. cc)
runes_eq_iff (c ∷ s) (d ∷ t) = ground (arith, runes_eq_iff s t)

-- The algorithm is one that the switch knows.
abbrev pub IsKnown : Runes → Type 0
IsKnown algorithm = (algorithm ≡ codes "SCRAM-SHA-256") ⊎ (algorithm ≡ codes "SCRAM-SHA-512")

abbrev pub IsNil : Opt → Type 0
IsNil o = o ≡ nil_opt

-- The option for SASL.
abbrev sasl : ServerConfig → List Opt
sasl c = if is_empty c.scram_algorithm then [] else scram_opt c ∷ []

one-IsNil : Some IsNil (nil_opt ∷ [])
one-IsNil = inl refl

pub is_empty_iff : (s : Runes) → (is_empty s ≡ true) ↔ (s ≡ [])
is_empty_iff [] = (λ e. refl, λ e. refl)
is_empty_iff (c ∷ s) = (λ e. cc, λ e. cc)

abbrev IsUnknown : Runes → Type 0
IsUnknown algorithm = (algorithm ≢ []) × (IsKnown algorithm → ⊥)

not_nil : (o : Opt) → o ≢ nil_opt → Some IsNil (o ∷ []) → ⊥
not_nil o h (inl e) = h e
not_nil o h (inr s) = s

sasl-IsNil : (c : ServerConfig) → Some IsNil (sasl c) ↔ IsUnknown c.scram_algorithm
unfolding scram_opt
sasl-IsNil c = elim (Bool-cases (is_empty c.scram_algorithm)) [
  | inl empty ↦
      rw empty (λ s. absurd s, λ u. absurd (u.0 ((is_empty_iff c.scram_algorithm).0 empty)))
  | inr set ↦ elim (Bool-cases (runes_eq c.scram_algorithm (codes "SCRAM-SHA-256"))) [
    | inl is_256 ↦
        rw (set, is_256)
          (
            λ s. absurd (not_nil _ (λ e. cc) s),
            λ u. absurd (u.1 (inl ((runes_eq_iff c.scram_algorithm _).0 is_256))),
          )
    | inr not_256 ↦ elim (Bool-cases (runes_eq c.scram_algorithm (codes "SCRAM-SHA-512"))) [
      | inl is_512 ↦
          rw (set, not_256, is_512)
            (
              λ s. absurd (not_nil _ (λ e. cc) s),
              λ u. absurd (u.1 (inr ((runes_eq_iff c.scram_algorithm _).0 is_512))),
            )
      | inr not_512 ↦ rw (set, not_256, not_512) (λ s. unknown set not_256 not_512, λ u. one-IsNil)
    ]
  ]
]
  where
    unknown :
        is_empty c.scram_algorithm ≡ false
        → runes_eq c.scram_algorithm (codes "SCRAM-SHA-256") ≡ false
        → runes_eq c.scram_algorithm (codes "SCRAM-SHA-512") ≡ false
        → IsUnknown c.scram_algorithm
    unknown set not_256 not_512 = (
      λ e. cc (set, (is_empty_iff c.scram_algorithm).1 e),
      λ k. elim k [
        | inl e ↦ cc (not_256, (runes_eq_iff c.scram_algorithm _).1 e)
        | inr e ↦ cc (not_512, (runes_eq_iff c.scram_algorithm _).1 e)
      ],
    )

if_not_nil : (b : Bool) (o : Opt) → o ≢ nil_opt → Some IsNil (if b then o ∷ [] else []) → ⊥
if_not_nil true o h s = not_nil o h s
if_not_nil false o h s = s

-- Where the options of the caller have no nil, the options of a Kafka client have one exactly if
-- the algorithm for SASL is set and is neither of the two that the code knows.
pub client_opts-IsNil :
    (c : ServerConfig) (config : List Opt)
    → All (λ o. o ≢ nil_opt) config
    → Some IsNil (client_opts c config)
      ↔ ((c.scram_algorithm ≢ []) × (IsKnown c.scram_algorithm → ⊥))
unfolding client_opts
client_opts-IsNil c config h = (forth, back)
  where
    first : List Opt
    first = seed_brokers c.servers ∷ with_logger ∷ []

    hooks : List Opt
    hooks = if c.use_telemetry then with_hooks ∷ [] else []

    tls : List Opt
    tls = if c.tls then dial_tls ∷ [] else []

    in_first : Some IsNil first → ⊥
    in_first (inl e) = cc e
    in_first (inr s) = not_nil with_logger (λ e. cc) s

    in_config : (os : List Opt) → All (λ o. o ≢ nil_opt) os → Some IsNil os → ⊥
    in_config os all s = All-Some os (λ o differ e. differ e) all s

    forth : Some IsNil (client_opts c config) → IsUnknown c.scram_algorithm
    forth s = elim (Some-append IsNil (first ++ config ++ hooks ++ sasl c) tls s) [
      | inr e ↦ absurd (if_not_nil c.tls dial_tls (λ e. cc) e)
      | inl s ↦ elim (Some-append IsNil (first ++ config ++ hooks) (sasl c) s) [
        | inr e ↦ (sasl-IsNil c).0 e
        | inl s ↦ elim (Some-append IsNil (first ++ config) hooks s) [
          | inr e ↦ absurd (if_not_nil c.use_telemetry with_hooks (λ e. cc) e)
          | inl s ↦ elim (Some-append IsNil first config s) [
            | inl e ↦ absurd (in_first e)
            | inr e ↦ absurd (in_config config h e)
          ]
        ]
      ]
    ]

    back : IsUnknown c.scram_algorithm → Some IsNil (client_opts c config)
    back u =
        Some-append_left IsNil (first ++ config ++ hooks ++ sasl c) tls
          (Some-append_right IsNil (first ++ config ++ hooks) (sasl c) ((sasl-IsNil c).1 u))
