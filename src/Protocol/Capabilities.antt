-- ===== src/Protocol/Capabilities.antt =====
-- The capabilities that the auth payload of grix_hermes/protocol.py names.
use grix_hermes_python.Prelude.{String, ◌≡◌, refl, true, some, List, [], ◌∷◌, member}
use grix_hermes_python.Prelude.Dict.{get}
use grix_hermes_python.Prelude.Text.{strip, is_space}
use grix_hermes_python.Protocol.Names.{normalize_names, ensure_names}
use grix_hermes_python.Protocol.Settings.{
  GrixConnectionConfig, required_auth_capabilities, forced_auth_capabilities,
  stable_auth_capabilities, with_capabilities,
}
use grix_hermes_python.Protocol.Auth.{Host, build_auth_payload, text_list, as_values}
use grix_hermes_python.Protocol.Distinct.{
  distinct, includes, AreClean, normalize_names-distinct, ensure_names-distinct,
  ensure_names-includes, ensure_names-includes_kept,
}

required_clean : AreClean required_auth_capabilities
unfolding strip is_space
required_clean = (refl, refl, tt)

forced_clean : AreClean forced_auth_capabilities
unfolding strip is_space
forced_clean = (refl, refl, (refl, refl, (refl, refl, (refl, refl, tt))))

stable_distinct : distinct stable_auth_capabilities ≡ true
unfolding member
stable_distinct = refl

stable_required : includes stable_auth_capabilities required_auth_capabilities ≡ true
unfolding member
stable_required = refl

stable_forced : includes stable_auth_capabilities forced_auth_capabilities ≡ true
unfolding member
stable_forced = refl

-- What an auth payload may say.
abbrev pub IsComplete : List String → Type 0
IsComplete names =
    distinct names ≡ true
    × includes names required_auth_capabilities ≡ true
    × includes names forced_auth_capabilities ≡ true

with_capabilities-IsComplete :
    (names : List String) → distinct names ≡ true → IsComplete (with_capabilities names)
unfolding with_capabilities
with_capabilities-IsComplete [] apart = (stable_distinct, stable_required, stable_forced)
with_capabilities-IsComplete (x ∷ xs) apart =
    let required = ensure_names (x ∷ xs) required_auth_capabilities in
    (
      ensure_names-distinct forced_auth_capabilities required
          (ensure_names-distinct required_auth_capabilities (x ∷ xs) apart),
      ensure_names-includes_kept required_auth_capabilities forced_auth_capabilities required
          (ensure_names-includes required_auth_capabilities (x ∷ xs) required_clean),
      ensure_names-includes forced_auth_capabilities required forced_clean,
    )

-- Whatever capabilities a connection is configured with, the auth payload names each capability
-- once, and among them the required ones and those that are forced.
pub auth_capabilities-IsComplete :
    (host : Host) (config : GrixConnectionConfig)
    → (get "capabilities" (build_auth_payload host config)
          ≡ some (text_list (with_capabilities (normalize_names (as_values config.capabilities))))
        × IsComplete (with_capabilities (normalize_names (as_values config.capabilities))))
unfolding build_auth_payload get
auth_capabilities-IsComplete host config = (
  refl,
  with_capabilities-IsComplete _ (normalize_names-distinct (as_values config.capabilities)),
)
