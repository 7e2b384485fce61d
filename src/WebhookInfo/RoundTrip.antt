-- ===== src/WebhookInfo/RoundTrip.antt =====
-- What `save_webhook` writes, the restored query gives back.
use core_telegram_api.Common.{
  ℕ, ◌≤◌, ◌<◌, ◌≡◌, refl, ◌≢◌, inl, inr, Bool, false, not, [], ◌∷◌, ◌++◌, arith, if◌then◌else◌,
  Bool-cases, ◌==◌, nat_eq, bytes_eq, int_eq, Bytes, codes, is_prefix, Lacks, Option, some, ◌^◌,
}
use core_telegram_api.UpdateTypes.{
  JsonValue, number_value, get_allowed_update_types, allowed_of, no_text,
}
use core_telegram_api.WebhookInfo.{
  TextLibrary, IsTextLibrary, Settings, is_empty, Args, has_arg, arg, option, save_allowed,
  save_secret, save_fix_ip, save_ip, save_webhook, read_option, read_certificate, read_fix_ip,
  restore_args, get_integer_arg, get_webhook_max_connections, settings_of,
}

-- Settings that `setWebhook` accepts: no slash in the address and the token, and a URL that does not
-- start with `#`.
pub record IsStorable (w : Settings) : Type 0 where
  pub ip_lacks : Lacks b'/' w.ip_address
  pub secret_lacks : Lacks b'/' w.secret_token
  pub url_start : is_prefix (codes "#") w.url ≡ false
  pub url_nonempty : w.url ≢ []

-- The arguments that the query is to have.
abbrev pub when : Bool → Bytes → Bytes → Args
when b key value = if b then (key, value) ∷ [] else []

is_empty_of_ne : (s : Bytes) → s ≢ [] → is_empty s ≡ false
is_empty_of_ne [] h = absurd (h refl)
is_empty_of_ne (c ∷ s) h = refl

module _ (t : TextLibrary) (l : IsTextLibrary t) where
  abbrev pub expected_args : ℕ → Settings → Args
  expected_args defaults w =
      when w.has_certificate (codes "certificate") (codes "previous")
      ++ ((codes "max_connections", t.decimal w.max_connections)
          ∷ (when (not (is_empty w.ip_address)) (codes "ip_address") w.ip_address
              ++ (when w.fix_ip_address (codes "fix_ip_address") (codes "1")
                  ++ (when (not (is_empty w.secret_token)) (codes "secret_token") w.secret_token
                      ++ (when (not (w.allowed_update_types == defaults)) (codes "allowed_updates")
                            (t.decimal w.allowed_update_types)
                          ++ ((codes "url", w.url) ∷ []))))))

  option_present :
      (mark key value rest : Bytes)
      → Lacks b'/' value
      → read_option t mark key (option t mark value rest) ≡ ((key, value) ∷ [], rest)
  unfolding read_option
  option_present mark key value rest h =
      rw (l.try_skip_present mark (value ++ (b'/' ∷ rest)), read_option)
        (rw (l.read_till_present b'/' value rest h, l.skip_present b'/' rest))

  option_absent :
      (mark key s : Bytes) → is_prefix mark s ≡ false → read_option t mark key s ≡ ([], s)
  unfolding read_option
  option_absent mark key s h = rw (l.try_skip_absent mark s h, read_option)

  module _ (defaults : ℕ) (w : Settings) (ok : IsStorable w) where
    no_mark : (p : Bytes) → is_prefix (b'#' ∷ p) w.url ≡ false
    unfolding is_prefix
    no_mark p = ground (arith, ok.url_start)

    read_allowed :
        read_option t (codes "#allow") (codes "allowed_updates") (save_allowed t defaults w) ≡ (
          when
              (not (w.allowed_update_types == defaults))
              (codes "allowed_updates")
              (t.decimal w.allowed_update_types),
          w.url,
        )
    read_allowed = elim (Bool-cases (w.allowed_update_types == defaults)) [
      | inl same ↦ rw same (option_absent _ _ w.url (no_mark _))
      | inr other ↦ rw other (
          option_present (codes "#allow") (codes "allowed_updates") _ w.url
            (l.decimal_digits w.allowed_update_types))
    ]

    no_secret : (p : Bytes) → is_prefix (b'#' ∷ b's' ∷ p) (save_allowed t defaults w) ≡ false
    no_secret p = elim (Bool-cases (w.allowed_update_types == defaults)) [
      | inl same ↦ rw same (no_mark _)
      | inr other ↦ rw other (unfold is_prefix in refl)
    ]

    read_secret :
        read_option t (codes "#secret") (codes "secret_token") (save_secret t defaults w) ≡ (
          when (not (is_empty w.secret_token)) (codes "secret_token") w.secret_token,
          save_allowed t defaults w,
        )
    read_secret = elim (Bool-cases (is_empty w.secret_token)) [
      | inl same ↦ rw same (option_absent _ _ _ (no_secret _))
      | inr other ↦
          rw other (option_present (codes "#secret") (codes "secret_token") _ _ ok.secret_lacks)
    ]

    no_fix : (p : Bytes) → is_prefix (b'#' ∷ b'f' ∷ p) (save_secret t defaults w) ≡ false
    no_fix p = elim (Bool-cases (is_empty w.secret_token)) [
      | inr other ↦ rw other (unfold is_prefix in refl)
      | inl same ↦ rw same (elim (Bool-cases (w.allowed_update_types == defaults)) [
        | inl d ↦ rw d (no_mark _)
        | inr d ↦ rw d (unfold is_prefix in refl)
      ])
    ]

    read_fix :
        read_fix_ip t (save_fix_ip t defaults w)
        ≡ (when w.fix_ip_address (codes "fix_ip_address") (codes "1"), save_secret t defaults w)
    unfolding read_fix_ip
    read_fix = elim (Bool-cases w.fix_ip_address) [
      | inl fixed ↦ rw fixed (
          rw (l.try_skip_present (codes "#fix_ip") (b'/' ∷ save_secret t defaults w), read_fix_ip)
            (rw (l.skip_present b'/' (save_secret t defaults w))))
      | inr free ↦ rw free (
          rw (
            l.try_skip_absent (codes "#fix_ip") (save_secret t defaults w) (no_fix _),
            read_fix_ip,
          ))
    ]

    no_ip : (p : Bytes) → is_prefix (b'#' ∷ b'i' ∷ p) (save_fix_ip t defaults w) ≡ false
    no_ip p = elim (Bool-cases w.fix_ip_address) [
      | inl fixed ↦ rw fixed (unfold is_prefix in refl)
      | inr free ↦ rw free (elim (Bool-cases (is_empty w.secret_token)) [
        | inr other ↦ rw other (unfold is_prefix in refl)
        | inl same ↦ rw same (elim (Bool-cases (w.allowed_update_types == defaults)) [
          | inl d ↦ rw d (no_mark _)
          | inr d ↦ rw d (unfold is_prefix in refl)
        ])
      ])
    ]

    read_ip : read_option t (codes "#ip") (codes "ip_address") (save_ip t defaults w) ≡ (
      when (not (is_empty w.ip_address)) (codes "ip_address") w.ip_address,
      save_fix_ip t defaults w,
    )
    read_ip = elim (Bool-cases (is_empty w.ip_address)) [
      | inl same ↦ rw same (option_absent _ _ _ (no_ip _))
      | inr other ↦ rw other (option_present (codes "#ip") (codes "ip_address") _ _ ok.ip_lacks)
    ]

    no_cert : (s : Bytes) → is_prefix (codes "cert/") (codes "#maxc" ++ s) ≡ false
    unfolding is_prefix
    no_cert s = refl

    read_cert : read_certificate t (save_webhook t defaults w) ≡ (
      when w.has_certificate (codes "certificate") (codes "previous"),
      option t (codes "#maxc") (t.decimal w.max_connections) (save_ip t defaults w),
    )
    unfolding read_certificate save_webhook
    read_cert = elim (Bool-cases w.has_certificate) [
      | inl own ↦ rw own (rw (l.try_skip_present (codes "cert/") _, read_certificate))
      | inr public ↦ rw public (
          rw (
            l.try_skip_absent (codes "cert/")
                (option t (codes "#maxc") (t.decimal w.max_connections) (save_ip t defaults w))
                (no_cert (t.decimal w.max_connections ++ (b'/' ∷ save_ip t defaults w))),
            read_certificate,
          ))
    ]

    -- The restored query has the saved settings as its arguments.
    pub restore_args-save_webhook :
        restore_args t (save_webhook t defaults w) ≡ expected_args defaults w
    unfolding restore_args
    restore_args-save_webhook = rw (
      read_cert,
      option_present (codes "#maxc") (codes "max_connections") (t.decimal w.max_connections)
          (save_ip t defaults w) (l.decimal_digits w.max_connections),
      read_ip,
      read_fix,
      read_secret,
      read_allowed,
    )

    arg_certificate :
        (arg (codes "certificate") (expected_args defaults w) == codes "previous")
        ≡ w.has_certificate
    unfolding arg
    arg_certificate = ground arith

    arg_max : arg (codes "max_connections") (expected_args defaults w) ≡ t.decimal w.max_connections
    unfolding arg
    arg_max = ground arith

    arg_ip : arg (codes "ip_address") (expected_args defaults w) ≡ w.ip_address
    unfolding arg
    arg_ip = ground arith

    arg_fix : has_arg (codes "fix_ip_address") (expected_args defaults w) ≡ w.fix_ip_address
    unfolding has_arg
    arg_fix = ground arith

    pub arg_secret : arg (codes "secret_token") (expected_args defaults w) ≡ w.secret_token
    unfolding arg
    arg_secret = ground arith

    pub arg_url : arg (codes "url") (expected_args defaults w) ≡ w.url
    unfolding arg
    arg_url = ground arith

    arg_allowed :
        arg (codes "allowed_updates") (expected_args defaults w)
        ≡ (if w.allowed_update_types == defaults then [] else t.decimal w.allowed_update_types)
    unfolding arg
    arg_allowed = ground arith

    no_text_of_ne : (s : Bytes) → s ≢ [] → no_text s ≡ false
    no_text_of_ne [] h = absurd (h refl)
    no_text_of_ne (c ∷ s) h = refl

    -- Settings with a positive mask of 64 bits and a number of connections in the allowed range come
    -- back from the database, if they are storable: the restored query sets them again. Before it,
    -- `DEFAULT_ALLOWED_UPDATE_TYPES` is in force. A decimal number is JSON of itself, and is read as
    -- it was printed if it has 64 bits.
    pub settings_of-restore :
        (local_mode : Bool) (default_value : ℕ) (json_decode : Bytes → Option JsonValue)
        (to_integer_safe : Bytes → Option ℕ)
        → ((n : ℕ) → json_decode (t.decimal n) ≡ some (number_value (t.decimal n)))
        → ((n : ℕ) → n < 2 ^ 64 → to_integer_safe (t.decimal n) ≡ some n)
        → 0 < w.allowed_update_types
        → w.allowed_update_types < 2 ^ 64
        → 1 ≤ w.max_connections
        → w.max_connections ≤ (if local_mode then 100000 else 100)
        → settings_of t local_mode default_value json_decode to_integer_safe defaults
            (restore_args t (save_webhook t defaults w))
          ≡ w
    unfolding settings_of get_webhook_max_connections get_integer_arg get_allowed_update_types
        allowed_of
    settings_of-restore local_mode default_value f g decodes reads some_types small lo hi =
        rw restore_args-save_webhook (
          rw (arg_certificate, arg_max, arg_ip, arg_fix, arg_secret, arg_url, arg_allowed)
            (ground (
              arith,
              l.to_integer-decimal w.max_connections,
              is_empty_of_ne (t.decimal w.max_connections) (l.decimal_nonempty w.max_connections),
              no_text_of_ne (t.decimal w.allowed_update_types)
                  (l.decimal_nonempty w.allowed_update_types),
              decodes w.allowed_update_types,
              reads w.allowed_update_types small,
            )))
