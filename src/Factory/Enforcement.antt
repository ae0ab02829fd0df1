-- ===== src/Factory/Enforcement.antt =====
-- The factory's policy as the stream contract applies it: `create_stream_via_factory` over the views
-- of a deployed factory.
use fluxora_contracts.Base.{
  ℕ, ◌-◌, ◌≤◌, ◌≡◌, refl, sym, ap, subst, ◌∙◌, ℤ, pos, ◌≤ℤ◌, ◌/ℤ◌, Bool, true, false, not, Option,
  none, some, arith, ◌<◌,
}
use fluxora_contracts.Errors.{ok}
use fluxora_contracts.Types.{Address, linear, default_cliff_mode}
use fluxora_contracts.Host
use fluxora_contracts.Host.{Env, World}
use fluxora_contracts.Transition.Create.{StreamTerms, check_terms, check_rate, check_policy}
use fluxora_contracts.Transition.Invariant.Keeps.{check_terms-ok}
use fluxora_contracts.Contract.Inversion.{>>=-ok, lift-ok, unwrap-ok, reject_if-ok}
use fluxora_contracts.Contract.Create.{create_stream_inner, create_stream_via_factory}
use fluxora_contracts.Factory.Calls.{State, Reply, replied, refused, trapped}
use fluxora_contracts.Factory.{FactoryConfig, get_factory_config, is_allowlisted}

-- The configuration as the stream contract decodes it: the fields have the same names.
abbrev pub decoded : FactoryConfig → Host.FactoryConfig
decoded c = record {
  admin = c.admin;
  stream_contract = c.stream_contract;
  max_deposit = c.max_deposit;
  min_duration = c.min_duration;
  batch_cap_enforced = c.batch_cap_enforced;
  creation_paused = c.creation_paused;
  min_rate_per_second = c.min_rate_per_second;
  max_rate_per_second = c.max_rate_per_second;
}

-- The caller traps where the view fails.
abbrev config_answer : Reply FactoryConfig → Option Host.FactoryConfig
config_answer (replied c s) = some (decoded c)
config_answer (refused e) = none
config_answer trapped = none

abbrev config_at : Option State → Option Host.FactoryConfig
config_at none = none
config_at (some s) = config_answer (get_factory_config s)

abbrev listed_at : Option State → Address → Option Bool
listed_at none a = none
listed_at (some s) a = some (is_allowlisted s a)

-- The views of the factories that are deployed, each with its state.
abbrev pub deployed : (Address → Option State) → Host.Factory
deployed states = record {
  get_factory_config = λ f. config_at (states f);
  is_allowlisted = λ f a. listed_at (states f) a;
}

-- What a creation through a factory has passed.
record Passed (views : Host.Factory) (factory sender : Address) (t : StreamTerms) : Type 0 where
  config : Host.FactoryConfig
  answered : views.get_factory_config factory ≡ some config
  policy : check_policy config t ≡ ok tt
  listed : views.is_allowlisted factory t.token ≡ some true
  terms :
      check_terms sender
        (record t { cliff_mode = default_cliff_mode; reference = none; curve = linear })
      ≡ ok tt

listed_true : (o : Option Bool) (b : Bool) → o ≡ some b → not b ≡ false → o ≡ some true
listed_true o b e h = ground arith

create_stream_via_factory-Passed :
    {L : Type 0} (e : Env L) (factory sender : Address) (t : StreamTerms) (w w' : World L) (i : ℕ)
    → create_stream_via_factory e factory sender t w ≡ ok (i, w')
    → Passed e.factory factory sender t
unfolding create_stream_via_factory create_stream_inner
create_stream_via_factory-Passed e factory sender t w w' i h =
    let (_, w1, _, h1) = >>=-ok _ _ w h in
    let (_, w2, _, h2) = >>=-ok _ _ w1 h1 in
    let (config, w3, got, h3) = >>=-ok _ _ w2 h2 in
    let (_, w4, passed, h4) = >>=-ok _ _ w3 h3 in
    let (b, w5, listed, h5) = >>=-ok _ _ w4 h4 in
    let (_, w6, kept, h6) = >>=-ok _ _ w5 h5 in
    let (_, w7, checked, h7) = >>=-ok _ _ w6 h6 in
    record {
      config = config;
      answered = (unwrap-ok _ w2 got).0;
      policy = (lift-ok _ w3 passed).0;
      listed = listed_true _ b (unwrap-ok _ w4 listed).0 (reject_if-ok _ _ w5 kept).0;
      terms = (lift-ok _ w6 checked).0;
    }

abbrev pub AtLeast : Option ℤ → ℤ → Type 0
AtLeast none rate = Unit
AtLeast (some bound) rate = bound ≤ℤ rate

abbrev pub AtMost : Option ℤ → ℤ → Type 0
AtMost none rate = Unit
AtMost (some bound) rate = rate ≤ℤ bound

check_rate-ok :
    (c : Host.FactoryConfig) (rate : ℤ)
    → check_rate c rate ≡ ok tt
    → AtLeast c.min_rate_per_second rate × AtMost c.max_rate_per_second rate
unfolding check_rate
check_rate-ok c rate e = (ground arith, ground arith)

-- The rate per second of a schedule, rounded down.
abbrev pub rate_of : StreamTerms → ℤ
rate_of t = t.deposit /ℤ pos (t.end_time - t.start_time)

-- Terms that satisfy every constraint of a configuration.
pub record Satisfies (c : Host.FactoryConfig) (t : StreamTerms) : Type 0 where
  pub running : c.creation_paused ≡ false
  pub deposit : t.deposit ≤ℤ c.max_deposit
  pub duration : c.min_duration ≤ t.end_time - t.start_time
  pub at_least : AtLeast c.min_rate_per_second (rate_of t)
  pub at_most : AtMost c.max_rate_per_second (rate_of t)

check_policy-Satisfies :
    (c : Host.FactoryConfig) (t : StreamTerms) (d : ℕ)
    → t.deposit ≡ pos d
    → 0 < d
    → t.start_time < t.end_time
    → check_policy c t ≡ ok tt
    → Satisfies c t
unfolding check_policy
check_policy-Satisfies c t d is_d pos_d range e =
    let rates : check_rate c (rate_of t) ≡ ok tt = ground arith in
    record {
      running = ground arith;
      deposit = ground arith;
      duration = ground arith;
      at_least = (check_rate-ok c (rate_of t) rates).0;
      at_most = (check_rate-ok c (rate_of t) rates).1;
    }

decoded_config :
    (r : Reply FactoryConfig) (config : Host.FactoryConfig)
    → config_answer r ≡ some config
    → (c : FactoryConfig) × (s : State) × (r ≡ replied c s) × (decoded c ≡ config)
decoded_config (replied c s) config e = (c, s, refl, cc)
decoded_config (refused x) config e = cc
decoded_config trapped config e = cc

some_inj : (b c : Bool) → some b ≡ some c → b ≡ c
some_inj b c e = cc

-- When `create_stream_via_factory` succeeds and the factory's views are those of the factory
-- contract with a state at that address, the factory has a configuration that is not paused, the
-- deposit is at most its cap, the duration at least its minimum, the rate per second, rounded down,
-- within its bounds where they are set, and the factory lists the token of the stream.
pub create_stream_via_factory-Satisfies :
    {L : Type 0} (e : Env L) (states : Address → Option State) (factory sender : Address)
    (t : StreamTerms) (s : State) (w w' : World L) (i : ℕ)
    → e.factory ≡ deployed states
    → states factory ≡ some s
    → create_stream_via_factory e factory sender t w ≡ ok (i, w')
    → (c : FactoryConfig) × (s' : State) × (get_factory_config s ≡ replied c s')
      × Satisfies (decoded c) t
      × (is_allowlisted s t.token ≡ true)
create_stream_via_factory-Satisfies e states factory sender t s w w' i views at h =
    let p = create_stream_via_factory-Passed e factory sender t w w' i h in
    let answered : config_at (states factory) ≡ some p.config =
      sym (ap (λ (v : Host.Factory). v.get_factory_config factory) views) ∙ p.answered in
    let listed : listed_at (states factory) t.token ≡ some true =
      sym (ap (λ (v : Host.Factory). v.is_allowlisted factory t.token) views) ∙ p.listed in
    let (c, s', got, same) =
      decoded_config (get_factory_config s) p.config (sym (ap config_at at) ∙ answered) in
    let (d, is_d, pos_d, range, _, _, _, _) =
      check_terms-ok sender
        (record t { cliff_mode = default_cliff_mode; reference = none; curve = linear }) p.terms in
    (
      c,
      s',
      got,
      subst (λ (x : Host.FactoryConfig). Satisfies x t) (sym same)
          (check_policy-Satisfies p.config t d is_d pos_d range p.policy),
      some_inj (is_allowlisted s t.token) true
          (sym (ap (λ (o : Option State). listed_at o t.token) at) ∙ listed),
    )
