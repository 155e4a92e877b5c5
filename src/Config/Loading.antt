-- ===== src/Config/Loading.antt =====
-- `Config::from_str` of cli/src/config.rs: expansion, parsing and checking, in that order. The YAML
-- parser is a parameter, as is the environment.
use coulisse.Prelude.{
  ℕ, String, ◌≡◌, refl, sym, ap, ◌∙◌, subst, Option, List, Result, ok, err, ◌>>=◌, ◌>>◌, map_err,
  arith,
}
use coulisse.Experiments.Routing.{Floats}
use coulisse.Triggers.{CronCrate}
use coulisse.Config.{Config, ConfigError}
use coulisse.Config.Validate.{validate}
use coulisse.Config.Expansion.{expand_env_vars_with, expand_config_vars, located_in}
use coulisse.Config.Accepted.{IsConsistent, validate_iff}

-- `serde_yaml::from_str` at the `vars` block alone and at the whole configuration.
pub record YamlCrate (F32 : Type 0) : Type 1 where
  pub YamlError : Type 0
  pub vars_of : List ℕ → Result YamlError (List (String × String))
  pub config_of : List ℕ → Result YamlError (Config F32)

-- `ConfigError`, whose `ParseConfig` holds the parser's error.
pub data LoadError (F32 CronError YamlError : Type 0) : Type 0 where
  invalid : ConfigError F32 CronError → LoadError F32 CronError YamlError
  parse_config : YamlError → LoadError F32 CronError YamlError

map_err_then :
    {E F A B : Type 0} (g : E → F) (m : Result E A) (k : A → Result F B) {b : B}
    → (map_err g m >>= k) ≡ ok b
    → (a : A) × (m ≡ ok a) × (k a ≡ ok b)
map_err_then g (ok a) k h = (a, refl, h)
map_err_then g (err e) k h = absurd (ground arith)

abbrev value_or : {E A : Type 0} → A → Result E A → A
value_or a (ok b) = b
value_or a (err e) = a

ok-injective : {E A : Type 0} (a b : A) (r : Result E A) → r ≡ ok a → r ≡ ok b → a ≡ b
ok-injective a b r e h = ap (value_or a) (sym e ∙ h)

module _ (f : Floats) (crate : CronCrate) (yaml : YamlCrate f.F32)
    (lookup : List ℕ → Option (List ℕ)) where
  unfoldable pub from_str :
      List ℕ → String → Result (LoadError f.F32 crate.CronError yaml.YamlError) (Config f.F32)
  from_str raw path = do
    env_expanded ← map_err (λ e. invalid (located_in e raw path)) (expand_env_vars_with lookup raw)
    vars ← map_err parse_config (yaml.vars_of env_expanded)
    contents ←
        map_err (λ e. invalid (located_in e env_expanded path))
          (expand_config_vars env_expanded vars)
    config ← map_err parse_config (yaml.config_of contents)
    map_err invalid (validate f crate config)
    ok config

  -- A configuration that is loaded is what the parser makes of the text after both expansions, and
  -- it is consistent.
  pub from_str-IsConsistent :
      (raw : List ℕ) (path : String) (config : Config f.F32)
      → from_str raw path ≡ ok config
      → (env_expanded : List ℕ) × (vars : List (String × String)) × (contents : List ℕ)
        × (expand_env_vars_with lookup raw ≡ ok env_expanded)
        × (yaml.vars_of env_expanded ≡ ok vars)
        × (expand_config_vars env_expanded vars ≡ ok contents)
        × (yaml.config_of contents ≡ ok config)
        × IsConsistent f crate config
  unfolding from_str
  from_str-IsConsistent raw path config h =
      let a =
        map_err_then (λ e. invalid (located_in e raw path)) (expand_env_vars_with lookup raw) _ h in
      let b = map_err_then parse_config (yaml.vars_of a.0) _ a.2 in
      let c =
        map_err_then (λ e. invalid (located_in e a.0 path)) (expand_config_vars a.0 b.0) _ b.2 in
      let d = map_err_then parse_config (yaml.config_of c.0) _ c.2 in
      let v = map_err_then invalid (validate f crate d.0) _ d.2 in
      let same = ok-injective d.0 config (ok d.0) refl v.2 in
      (
        a.0,
        b.0,
        c.0,
        a.1,
        b.1,
        c.1,
        subst (λ k. yaml.config_of c.0 ≡ ok k) same d.1,
        subst (IsConsistent f crate) same ((validate_iff f crate d.0).0 v.1),
      )
