-- ===== src/Startup/Clients.antt =====
-- What buildProviderSenders of internal/outboxer/providers.go holds when it returns.
use outboxer.Prelude.{
  String, Bool, true, false, Option, none, some, List, [], ◌∷◌, ◌++◌, ◌≡◌, refl, ◌⊎◌, inl, inr, All,
  subst, map, if◌then◌else◌, string_eq,
}
use mathlib.Core.List.{reverse, reverse-append}
use outboxer.Config.{AppConfig, ProviderSpec}
use outboxer.Startup.{
  Resource, provider_client, Action, release, process, Built, cleanup, with_client,
  build_provider_senders,
}
use outboxer.Startup.Brackets.{Brackets, done, acquires, Brackets-unwind}

abbrev pub is_process : Action → Bool
is_process process = true
is_process _ = false

-- The clients made so far, the last one first.
abbrev pub clients : List String → List Resource
clients cleanups = map provider_client (reverse cleanups)

pub cleanup-quiet : (rs : List Resource) → All (λ a. is_process a ≡ false) (map release rs)
cleanup-quiet [] = tt
cleanup-quiet (r ∷ rs) = (refl, cleanup-quiet rs)

module _ (built : String → AppConfig → Option String) (cfg : AppConfig) where
  -- From some clients made to those returned, or to none with an error.
  abbrev pub IsBuilt : List String → Built → Type 0
  IsBuilt cleanups b =
      ((held : List Resource)
        → Brackets (clients cleanups ++ held) b.actions (clients b.cleanups ++ held))
      × All (λ a. is_process a ≡ false) b.actions
      × ((b.error ≡ none) ⊎ (b.cleanups ≡ []))

  pub build_provider_senders-IsBuilt :
      (specs : List ProviderSpec) (cleanups : List String)
      → IsBuilt cleanups (build_provider_senders built cfg specs cleanups)
  unfolding build_provider_senders cleanup
  build_provider_senders-IsBuilt [] cleanups =
      (λ held. done (clients cleanups ++ held), tt, inl refl)
  build_provider_senders-IsBuilt (spec ∷ specs) cleanups =
      made (spec.enabled cfg) (built spec.target cfg)
        (build_provider_senders-IsBuilt specs (cleanups ++ (spec.target ∷ [])))
        (build_provider_senders-IsBuilt specs cleanups)
    where
      more : Built
      more = build_provider_senders built cfg specs (cleanups ++ (spec.target ∷ []))

      same : Built
      same = build_provider_senders built cfg specs cleanups

      made :
          (enabled : Bool) (problem : Option String)
          → IsBuilt (cleanups ++ (spec.target ∷ [])) more
          → IsBuilt cleanups same
          → IsBuilt cleanups
              (if enabled then with_client built cfg spec.target problem cleanups more else same)
      made false problem h k = k
      made true (some problem) h k = (
        λ held. Brackets-unwind (clients cleanups) held,
        cleanup-quiet (clients cleanups),
        inr refl,
      )
      made true none (brackets, quiet, ends) k = (
        λ held. acquires (provider_client spec.target) (clients cleanups ++ held) _ more.actions (
            subst
              (λ (cs : List String).
                Brackets (map provider_client cs ++ held) more.actions
                  (clients more.cleanups ++ held))
              (reverse-append cleanups (spec.target ∷ [])) (brackets held)),
        (refl, quiet),
        ends,
      )
