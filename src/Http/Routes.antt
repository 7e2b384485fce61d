-- ===== src/Http/Routes.antt =====
-- The paths of requests, read back.
use core_telegram_api.Common.{
  ◌≡◌, refl, ◌∙◌, Bool, true, false, not, ◌&&◌, ◌∷◌, ◌++◌, arith, if◌then◌else◌, nat_eq, bytes_eq,
  int_eq, Bytes, codes, is_prefix, Lacks,
}
use core_telegram_api.Http.{
  PathParser, IsPathParser, query, read_method, read_environment, read_token, route,
}

-- The path of a request: `/bot<token>/<method>`, or `/bot<token>/test/<method>`.
abbrev pub path_of : Bytes → Bool → Bytes → Bytes
path_of token is_test_dc method =
    codes "/bot" ++ (token ++ (if is_test_dc then codes "/test/" ++ method else b'/' ∷ method))

module _ (t : PathParser) (l : IsPathParser t) where
  unmarked :
      (method : Bytes)
      → is_prefix (codes "test") method && true ≡ false
      → is_prefix (codes "/test") (b'/' ∷ method) ≡ false
  unfolding is_prefix
  unmarked method h = ground (arith, h)

  read_token-path :
      (token rest : Bytes)
      → Lacks b'/' token
      → read_token t (token ++ (b'/' ∷ rest)) ≡ read_environment t token (b'/' ∷ rest)
  unfolding read_token
  read_token-path token rest h = rw (l.read_till_present b'/' token rest h, read_token) refl

  route-path : (s : Bytes) → route t (codes "/bot" ++ s) ≡ read_token t s
  unfolding route
  route-path s =
      rw (l.peek_char_first b'/' (codes "bot" ++ s), l.try_skip_present (codes "/bot") s, route)
        refl

  read_environment-path :
      (token : Bytes) (is_test_dc : Bool) (method : Bytes)
      → is_prefix (codes "test") method && not is_test_dc ≡ false
      → read_environment t token (if is_test_dc then codes "/test/" ++ method else b'/' ∷ method)
        ≡ query token is_test_dc method
  unfolding read_environment read_method
  read_environment-path token true method h =
      rw
        (
          l.try_skip_present (codes "/test") (b'/' ∷ method),
          read_environment,
          l.skip_present b'/' method,
          read_method,
        )
        refl
  read_environment-path token false method h =
      rw
        (
          l.try_skip_absent (codes "/test") (b'/' ∷ method) (unmarked method h),
          read_environment,
          l.skip_present b'/' method,
          read_method,
        )
        refl

  -- The path of a token with no slash and a method is read back as that token, environment and
  -- method, when a method in the main environment does not start with `test`.
  pub route-path_of :
      (token : Bytes) (is_test_dc : Bool) (method : Bytes)
      → Lacks b'/' token
      → is_prefix (codes "test") method && not is_test_dc ≡ false
      → route t (path_of token is_test_dc method) ≡ query token is_test_dc method
  route-path_of token true method h k =
      route-path (token ++ (codes "/test/" ++ method))
      ∙ read_token-path token (codes "test/" ++ method) h
      ∙ read_environment-path token true method k
  route-path_of token false method h k =
      route-path (token ++ (b'/' ∷ method))
      ∙ read_token-path token method h
      ∙ read_environment-path token false method k
