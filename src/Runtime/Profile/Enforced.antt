-- ===== src/Runtime/Profile/Enforced.antt =====
-- What a request has to be for src/runtime/profile-v1.ts to let it through.
use consensus_node.Base.{
  Text, codes, text_eq, text_beq, true, [], ◌∷◌, ◌++◌, ◌&&◌, ◌⊎◌, inl, inr, ◌||◌, Option, some,
  ◌==◌, ==_sound, includes, ok, >>=-eq-ok, or_throw, or_throw-eq-ok, guard, guard-eq-ok,
  ok-injective, ◌≡◌, refl, ap, subst, ◌∙◌,
}
use mathlib.Core.List.{Memᴰ}
use consensus_node.Base.Case.{to_upper_case}
use consensus_node.Base.Json.{Json}
use consensus_node.Runtime.Url.{Url, UrlApi, host}
use consensus_node.Runtime.Profile.{
  ProxyExecutionProfileV1, is_http, is_empty, origin, base_path, within, some_prefix, relative_path,
  check_target, normalize_proxy_profile, assert_proxy_profile_request, target_invalid,
  base_url_invalid, target_not_http, target_not_plain, outside_origin, outside_base_path,
  path_not_allowed, method_not_allowed,
}
use consensus_node.Runtime.Profile.Within.{
  IsWithin, IsBase, IsRelative, or_cases, some_prefix-Memᴰ, base_path-IsBase,
  relative_path-IsRelative, includes-Memᴰ,
}

-- The target lies within what the profile allows. `prefix` is the path of the profile's base URL
-- without the slash at its end, `relative` is what the target's path has behind it, or a slash.
pub record Allowed (urls : UrlApi) (parse_local : Text → Option Url) (p : ProxyExecutionProfileV1)
    (target_url method : Text) : Type 0 where
  pub target : Url
  pub base : Url
  pub prefix : Text
  pub relative : Text
  pub path : Text
  pub target_parsed : urls.parse target_url ≡ some target
  pub base_parsed : urls.parse p.base_url ≡ some base
  pub http : (target.protocol ≡ codes "http:") ⊎ (target.protocol ≡ codes "https:")
  pub no_username : target.username ≡ []
  pub no_password : target.password ≡ []
  pub no_fragment : target.hash ≡ []
  pub same_origin :
      target.protocol ++ (codes "//" ++ host target) ≡ base.protocol ++ (codes "//" ++ host base)
  pub is_base : IsBase base.pathname prefix
  pub in_base : IsRelative target.pathname prefix relative
  pub listed : Memᴰ path p.allowed_paths
  pub in_path : (path ≡ codes "/") ⊎ IsWithin relative path
  pub method_allowed : Memᴰ (to_upper_case method) p.allowed_methods

all_empty :
    (a b c : Text)
    → (is_empty a && is_empty b && is_empty c) ≡ true
    → (a ≡ []) × (b ≡ []) × (c ≡ [])
unfolding text_beq
all_empty [] [] [] h = (refl, refl, refl)
all_empty (x ∷ a) b c h = cc
all_empty [] (x ∷ b) c h = cc
all_empty [] [] (x ∷ c) h = cc

http_cases :
    (protocol : Text)
    → is_http protocol ≡ true
    → (protocol ≡ codes "http:") ⊎ (protocol ≡ codes "https:")
http_cases protocol h = elim (or_cases (protocol == codes "http:") (protocol == codes "https:") h) [
  | inl http ↦ inl (==_sound protocol (codes "http:") http)
  | inr https ↦ inr (==_sound protocol (codes "https:") https)
]

module _ (urls : UrlApi) (parse_local : Text → Option Url) where
  check_target-Allowed :
      (p q : ProxyExecutionProfileV1) (target_url method : Text)
      → check_target urls parse_local p target_url method ≡ ok q
      → (p ≡ q) × Allowed urls parse_local p target_url method
  unfolding check_target
  check_target-Allowed p q target_url method h =
      let (target, ht, h1) = >>=-eq-ok (or_throw (urls.parse target_url) target_invalid) _ h in
      let (base, hb, h2) = >>=-eq-ok (or_throw (urls.parse p.base_url) base_url_invalid) _ h1 in
      let (_, g1, h3) = >>=-eq-ok (guard (is_http target.protocol) target_not_http) _ h2 in
      let (_, g2, h4) =
        >>=-eq-ok
          (guard (is_empty target.username && is_empty target.password && is_empty target.hash)
            target_not_plain)
          _ h3 in
      let (_, g3, h5) = >>=-eq-ok (guard (origin target == origin base) outside_origin) _ h4 in
      let (_, g4, h6) =
        >>=-eq-ok
          (guard
            (is_empty (base_path urls parse_local base)
              || within urls parse_local target.pathname (base_path urls parse_local base))
            outside_base_path)
          _ h5 in
      let (_, g5, h7) =
        >>=-eq-ok
          (guard
            (some_prefix urls parse_local (relative_path urls parse_local base target)
              p.allowed_paths)
            path_not_allowed)
          _ h6 in
      let (_, g6, h8) =
        >>=-eq-ok (guard (includes (to_upper_case method) p.allowed_methods) method_not_allowed) _
          h7 in
      let (user, password, fragment) =
        all_empty target.username target.password target.hash (guard-eq-ok _ _ g2) in
      let (path, listed, inside) =
        some_prefix-Memᴰ urls parse_local (relative_path urls parse_local base target)
          p.allowed_paths (guard-eq-ok _ _ g5) in
      (
        ok-injective h8,
        record {
          target = target;
          base = base;
          prefix = base_path urls parse_local base;
          relative = relative_path urls parse_local base target;
          path = path;
          target_parsed = or_throw-eq-ok _ _ ht;
          base_parsed = or_throw-eq-ok _ _ hb;
          http = http_cases target.protocol (guard-eq-ok _ _ g1);
          no_username = user;
          no_password = password;
          no_fragment = fragment;
          same_origin = ==_sound (origin target) (origin base) (guard-eq-ok _ _ g3);
          is_base = base_path-IsBase urls parse_local base;
          in_base = relative_path-IsRelative urls parse_local base target (guard-eq-ok _ _ g4);
          listed = listed;
          in_path = inside;
          method_allowed =
              includes-Memᴰ (to_upper_case method) p.allowed_methods (guard-eq-ok _ _ g6);
        },
      )

  -- A request passes a profile only if the profile is a valid one, and the target is an http(s) URL
  -- without credentials or fragment at the scheme and host of the profile's base URL. Its path is the
  -- base path, without the slash at its end, and then nothing, or, if the base path is not empty, a slash
  -- and more. What follows the base path, or a slash if nothing does, is one of the allowed paths or goes
  -- on behind it with a slash; the allowed path of one slash allows all. The method, in upper case, is
  -- one of the allowed ones. The profile that comes back is the normalized one.
  pub assert_proxy_profile_request-Allowed :
      (input : Json) (target_url method : Text) (p : ProxyExecutionProfileV1)
      → assert_proxy_profile_request urls parse_local input target_url method ≡ ok p
      → (normalize_proxy_profile urls parse_local input ≡ ok p)
        × Allowed urls parse_local p target_url method
  unfolding assert_proxy_profile_request
  assert_proxy_profile_request-Allowed input target_url method p h =
      let (q, normalized, checked) =
        >>=-eq-ok (normalize_proxy_profile urls parse_local input) _ h in
      let (same, allowed) = check_target-Allowed q p target_url method checked in
      (
        normalized ∙ ap ok same,
        subst (λ r. Allowed urls parse_local r target_url method) same allowed,
      )
