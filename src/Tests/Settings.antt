-- ===== src/Tests/Settings.antt =====
-- Settings of a webhook with a certificate, an address and a secret, saved and restored.
use core_telegram_api.Common.{
  ℕ, zero, suc, ◌≡◌, refl, ap, true, false, none, some, [], ◌∷◌, ◌++◌, arith, if◌then◌else◌, length,
  ◌==◌, nat_eq, bytes_eq, int_eq, Bytes, codes, is_prefix, prefix_rest, prefix_rest-append, Lacks,
}
use core_telegram_api.UpdateTypes.{number_value}
use core_telegram_api.WebhookInfo.{
  TextLibrary, IsTextLibrary, Settings, save_webhook, restore_args, settings_of,
}
use core_telegram_api.WebhookInfo.RoundTrip.{
  IsStorable, expected_args, restore_args-save_webhook, settings_of-restore,
}

-- Numbers as tallies after a zero.
abbrev pub tally : ℕ → Bytes
tally zero = []
tally (suc n) = b'1' ∷ tally n

abbrev pub print : ℕ → Bytes
print n = b'0' ∷ tally n

abbrev pub read : Bytes → ℕ
read [] = 0
read (c ∷ s) = length s

abbrev pub read_till : ℕ → Bytes → Bytes × Bytes
read_till c [] = ([], [])
read_till c (x ∷ s) = if x == c then ([], x ∷ s) else (x ∷ (read_till c s).0, (read_till c s).1)

abbrev pub skip : ℕ → Bytes → Bytes
skip c [] = []
skip c (x ∷ s) = if x == c then s else x ∷ s

abbrev pub text_library : TextLibrary
text_library = record {
  decimal = print;
  to_integer = read;
  try_skip = λ p s. prefix_rest p s;
  read_till = read_till;
  skip = skip;
}

pub length-tally : (n : ℕ) → length (tally n) ≡ n
length-tally zero = refl
length-tally (suc n) = ap suc (length-tally n)

tally-Lacks : (n : ℕ) → Lacks b'/' (tally n)
tally-Lacks zero = refl
tally-Lacks (suc n) = tally-Lacks n

read_till_present : (c : ℕ) (s r : Bytes) → Lacks c s → read_till c (s ++ (c ∷ r)) ≡ (s, c ∷ r)
read_till_present c [] r h = ground (arith, nat_eq.beq_iff c c)
read_till_present c (x ∷ s) r h = ground (arith, read_till_present c s r, nat_eq.beq_iff x c)

absent : (p s : Bytes) → is_prefix p s ≡ false → prefix_rest p s ≡ none
unfolding is_prefix prefix_rest
absent [] s h = ground (arith, h)
absent (c ∷ p) [] h = refl
absent (c ∷ p) (d ∷ s) h = ground (arith, absent p s)

pub text_library-IsTextLibrary : IsTextLibrary text_library
text_library-IsTextLibrary = record {
  to_integer-decimal = length-tally;
  decimal_digits = tally-Lacks;
  decimal_nonempty = λ n h. ground (arith, h);
  try_skip_present = prefix_rest-append;
  try_skip_absent = absent;
  read_till_present = read_till_present;
  skip_present = λ c r. ground (arith, nat_eq.beq_iff c c);
}

abbrev settings : Settings
settings = record {
  has_certificate = true;
  max_connections = 3;
  ip_address = codes "1.2.3.4";
  fix_ip_address = true;
  secret_token = codes "key";
  allowed_update_types = 7;
  url = codes "a.b";
}

settings-IsStorable : IsStorable settings
unfolding is_prefix
settings-IsStorable = record {
  ip_lacks = refl;
  secret_lacks = refl;
  url_start = refl;
  url_nonempty = λ h. ground (arith, h);
}

restore_args-save_webhook_example :
    restore_args text_library (save_webhook text_library 5 settings)
    ≡ expected_args text_library text_library-IsTextLibrary 5 settings
restore_args-save_webhook_example =
    restore_args-save_webhook text_library text_library-IsTextLibrary 5 settings settings-IsStorable

settings_of-restore_example :
    settings_of text_library false 40
      (λ s. some (number_value s))
      (λ s. some (read s))
      5
      (restore_args text_library (save_webhook text_library 5 settings))
    ≡ settings
settings_of-restore_example =
    settings_of-restore text_library text_library-IsTextLibrary 5 settings settings-IsStorable false
      40 (λ s. some (number_value s)) (λ s. some (read s)) (λ n. refl)
      (λ n small. ap some (length-tally n)) (omega arith) (omega arith) (omega arith) (omega arith)
