-- ===== src/Server/Startup.antt =====
-- What `main` of server/src/main.rs decides before it calls `run_server`: from the arguments, the
-- environment and the configuration.
use xkvm.Base.{
  ℕ, ◌+◌, ◌/◌, ◌%◌, ◌≡◌, refl, inl, inr, Bool, true, false, not, ◌&&◌, ◌||◌, Option, none, some, [],
  ◌∷◌, if◌then◌else◌, Bool-cases, Option-cases, is_some, unwrap_or, nat_eq, Text, text_eq,
}
use xkvm.Server.Config.{Config, remove_paired_device}
use xkvm.Server.Socks5.{Socks5Config}

pub record Args : Type 0 where
  pub bind : Option Text
  pub list_paired : Bool
  pub revoke : Option Text
  pub pin : Option Text
  pub socks5_port : Option ℕ
  pub socks5_user : Option Text
  pub socks5_pass : Option Text
  pub socks5_allow_anonymous : Bool

-- `KVM_PAIRING_PIN` and `KVM_SOCKS5_PASSWORD`, if they are there, and the random number, which is
-- below 1000000.
pub record Surroundings : Type 0 where
  pub pairing_pin : Option Text
  pub socks5_password : Option Text
  pub generated : ℕ

abbrev or_else {ℓ} : {A : Type ℓ} → Option A → Option A → Option A
or_else (some a) o = some a
or_else none o = o

-- `{:06}` of a number below 1000000.
abbrev six_digits : ℕ → Text
six_digits n =
    (b'0' + n / 100000)
    ∷ (b'0' + n / 10000 % 10)
    ∷ (b'0' + n / 1000 % 10)
    ∷ (b'0' + n / 100 % 10)
    ∷ (b'0' + n / 10 % 10)
    ∷ (b'0' + n % 10)
    ∷ []

unfoldable pub resolve_pin : Args → Surroundings → Config → Text
resolve_pin args around config =
    unwrap_or (or_else args.pin (or_else around.pairing_pin config.pairing_pin))
      (six_digits around.generated)

unfoldable pub resolve_bind : Args → Config → Text
resolve_bind args config = unwrap_or args.bind config.bind_address

-- The credentials and the switch of the proxy.
unfoldable pub proxy_settings : Args → Surroundings → Config → Socks5Config
proxy_settings args around config = record {
  username = or_else args.socks5_user config.socks5.username;
  password = or_else args.socks5_pass (or_else around.socks5_password config.socks5.password);
  allow_anonymous = args.socks5_allow_anonymous || config.socks5.allow_anonymous;
}

-- The port and the settings with which the proxy is started; `none` if it is not.
unfoldable pub started_proxy : Args → Surroundings → Config → Option (ℕ × Socks5Config)
unfolding proxy_settings
started_proxy args around config =
    let settings = proxy_settings args around config in
    elim (or_else args.socks5_port config.socks5.port) [
      | none ↦ none
      | some port ↦
          if not settings.allow_anonymous
            && (not (is_some settings.username) || not (is_some settings.password))
          then none
          else some (port, settings)
    ]

-- What the program goes on to do: it ends, with the configuration it leaves in the file, or serves.
pub data Startup : Type 0 where
  ends : Config → Startup
  serves : (pin bind : Text) → (proxy : Option (ℕ × Socks5Config)) → Startup

unfoldable pub start_up : Bool → Args → Surroundings → Config → Startup
unfolding resolve_pin resolve_bind started_proxy remove_paired_device
start_up save_succeeds args around config =
    if args.list_paired then ends config else elim args.revoke [
      | some fp ↦
          let (config', removed) = remove_paired_device config fp in
          ends (if removed && save_succeeds then config' else config)
      | none ↦
          serves (resolve_pin args around config) (resolve_bind args config)
            (started_proxy args around config)
    ]

started_proxy_guarded :
    (args : Args) (around : Surroundings) (config : Config) (port : ℕ) (settings : Socks5Config)
    → started_proxy args around config ≡ some (port, settings)
    → (args.socks5_allow_anonymous || config.socks5.allow_anonymous) ≡ false
    → (settings ≡ proxy_settings args around config)
      × (is_some (proxy_settings args around config).username ≡ true)
      × (is_some (proxy_settings args around config).password ≡ true)
unfolding started_proxy proxy_settings
started_proxy_guarded args around config port settings h a =
    let chosen = proxy_settings args around config in
    elim (Option-cases (or_else args.socks5_port config.socks5.port)) [
      | inl e ↦ absurd (cc (rw (started_proxy, e) at h))
      | inr (p, e) ↦ elim (Bool-cases (is_some chosen.username)) [
        | inl u ↦ elim (Bool-cases (is_some chosen.password)) [
          | inl w ↦ (cc (rw (started_proxy, e, a, u, w) at h), u, w)
          | inr w ↦ absurd (cc (rw (started_proxy, e, a, u, w) at h))
        ]
        | inr u ↦ absurd (cc (rw (started_proxy, e, a, u) at h))
      ]
    ]

is_some-some {ℓ} : {A : Type ℓ} (o : Option A) → is_some o ≡ true → (a : A) × (o ≡ some a)
is_some-some none h = absurd (cc h)
is_some-some (some a) h = (a, refl)

start_up-serves :
    (saves : Bool) (args : Args) (around : Surroundings) (config : Config) (pin bind : Text)
    (proxy : Option (ℕ × Socks5Config))
    → start_up saves args around config ≡ serves pin bind proxy
    → started_proxy args around config ≡ proxy
unfolding start_up
start_up-serves saves args around config pin bind proxy h = elim (Bool-cases args.list_paired) [
  | inl l ↦ absurd (cc (rw l at h))
  | inr l ↦ elim (Option-cases args.revoke) [
    | inl r ↦ cc (rw (l, r) at h)
    | inr (fp, r) ↦ absurd (cc (rw (l, r) at h))
  ]
]

-- A proxy that the program starts asks for a user name and a password that are both known, unless
-- anonymous use was allowed by the arguments or the configuration.
pub start_up_guards_proxy :
    (saves : Bool) (args : Args) (around : Surroundings) (config : Config) (pin bind : Text)
    (port : ℕ) (settings : Socks5Config)
    → start_up saves args around config ≡ serves pin bind (some (port, settings))
    → (args.socks5_allow_anonymous || config.socks5.allow_anonymous) ≡ false
    → (settings.allow_anonymous ≡ false)
      × ((username : Text) × (settings.username ≡ some username))
      × ((password : Text) × (settings.password ≡ some password))
unfolding start_up started_proxy proxy_settings
start_up_guards_proxy saves args around config pin bind port settings h a =
    let (same, u, w) =
      started_proxy_guarded args around config port settings
        (start_up-serves saves args around config pin bind (some (port, settings)) h) a in
    rw same (a, is_some-some _ u, is_some-some _ w)
