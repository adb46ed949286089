-- ===== src/Startup/Address.antt =====
-- The address of a Redis server.
use lago_paiement_engine.Prelude.{
  ◌≡◌, ◌≢◌, refl, none, some, inl, inr, [], ◌∷◌, ◌++◌, codes, ◌==◌, ==_iff, Bool-cases,
  Option-cases,
}
use lago_paiement_engine.Utils.Env.{Runes}
use lago_paiement_engine.Startup.Connections.{behind, address_and_port}

behind-append : (prefix s : Runes) → behind prefix (prefix ++ s) ≡ some s
unfolding behind
behind-append [] s = refl
behind-append (c ∷ prefix) s = rw ((==_iff c c).1 refl) (behind-append prefix s)

behind-some : (prefix address s : Runes) → behind prefix address ≡ some s → address ≡ prefix ++ s
unfolding behind
behind-some [] address s h = cc
behind-some (c ∷ prefix) [] s h = cc
behind-some (c ∷ prefix) (d ∷ address) s h = elim (Bool-cases (d == c)) [
  | inl same ↦ cc ((==_iff d c).0 same, behind-some prefix address s (rw same at h))
  | inr differ ↦ absurd (none_some (rw differ at h))
]
  where
    none_some : none ≡ some s → ⊥
    none_some e = cc

abbrev pub redis_scheme : Runes
redis_scheme = codes "redis://"

abbrev pub rediss_scheme : Runes
rediss_scheme = codes "rediss://"

-- `AddressAndPort` takes either scheme off an address, and leaves an address without one alone.
pub address_and_port-scheme :
    (address : Runes)
    → (address_and_port (redis_scheme ++ address) ≡ address)
      × (address_and_port (rediss_scheme ++ address) ≡ address)
      × (((s : Runes) → address ≢ redis_scheme ++ s)
          → ((s : Runes) → address ≢ rediss_scheme ++ s)
          → address_and_port address ≡ address)
unfolding address_and_port
address_and_port-scheme address = (refl, refl, λ plain secure. unchanged plain secure)
  where
    unchanged :
        ((s : Runes) → address ≢ redis_scheme ++ s)
        → ((s : Runes) → address ≢ rediss_scheme ++ s)
        → address_and_port address ≡ address
    unchanged plain secure = elim (Option-cases (behind redis_scheme address)) [
      | inr (s, e) ↦ absurd (plain s (behind-some redis_scheme address s e))
      | inl e ↦ elim (Option-cases (behind rediss_scheme address)) [
        | inr (s, f) ↦ absurd (secure s (behind-some rediss_scheme address s f))
        | inl f ↦ rw (e, f) refl
      ]
    ]
