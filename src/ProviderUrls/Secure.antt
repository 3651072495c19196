-- ===== src/ProviderUrls/Secure.antt =====
-- src/provider_urls.rs: what the URL of a webhook is when it is accepted.
use agents_router.Prelude.{
  String, Bool, true, false, not, ◌&&◌, Option, none, some, ◌≡◌, refl, ◌⊎◌, inl, inr, Bool-cases,
  arith, ◌==◌,
}
use agents_router.ProviderUrls.{
  Url, UrlParser, UrlResult, invalid_url, valid_url, ◌>>=◌, ◌>>◌, bail_if, or_bail, has_credentials,
  is_local_host, parse_https_provider_url, validate_slack_webhook_url, validate_discord_webhook_url,
  validate_custom_webhook_url, validate_microsoft_teams_webhook_url,
}

-- The URL is reached by HTTPS, and it shows no credentials.
pub record IsSecure (u : Url) : Type 0 where
  pub https : (u.scheme == "https") ≡ true
  pub no_credentials : has_credentials u ≡ false

-- Or it stays on this machine.
pub record IsLocal (u : Url) : Type 0 where
  pub http : (u.scheme == "http") ≡ true
  pub host : String
  pub has_host : u.host ≡ some host
  pub local : is_local_host host ≡ true
  pub no_credentials : has_credentials u ≡ false

-- What every accepted value has
pub data Accepts {A : Type 0} (Q : A → Type 0) : UrlResult A → Type 0 where
  accepts : (a : A) → Q a → Accepts Q (valid_url a)
  rejects : (message : String) → Accepts Q (invalid_url message)

pub accepted_has :
    {A : Type 0} (Q : A → Type 0) (m : UrlResult A) (a : A) → Accepts Q m → m ≡ valid_url a → Q a
accepted_has Q _ a (accepts b q) e = let same : a ≡ b = ground arith in rw same q
accepted_has Q _ a (rejects message) e = ground arith

module _ {A : Type 0} (Q : A → Type 0) where
  pub unless_bailed :
      (test : Bool) (message : String) (rest : UrlResult A)
      → (test ≡ false → Accepts Q rest)
      → Accepts Q (bail_if test message >> rest)
  unless_bailed true message rest h = rejects message
  unless_bailed false message rest h = h refl

  pub found_or_bailed :
      {B : Type 0} (o : Option B) (message : String) (rest : B → UrlResult A)
      → ((b : B) → o ≡ some b → Accepts Q (rest b))
      → Accepts Q (or_bail o message >>= rest)
  found_or_bailed none message rest h = rejects message
  found_or_bailed (some b) message rest h = h b refl

  after :
      {B : Type 0} (P : B → Type 0) (m : UrlResult B) (rest : B → UrlResult A)
      → Accepts P m
      → ((b : B) → P b → Accepts Q (rest b))
      → Accepts Q (m >>= rest)
  after P _ rest (accepts b p) h = h b p
  after P _ rest (rejects message) h = rejects message

module _ (parse : UrlParser) where
  -- The text that is kept is a URL that was parsed, and is secure.
  pub record IsSecureText (text : String) : Type 0 where
    pub given : String
    pub url : Url
    pub parsed : parse given ≡ some url
    pub kept : text ≡ url.serialized
    pub secure : IsSecure url

  pub record IsPrivateText (text : String) : Type 0 where
    pub given : String
    pub url : Url
    pub parsed : parse given ≡ some url
    pub kept : text ≡ url.serialized
    pub private : IsSecure url ⊎ IsLocal url

  record IsHttpsUrl (u : Url) : Type 0 where
    given : String
    parsed : parse given ≡ some u
    secure : IsSecure u

  clean_url :
      (given : String) (u : Url)
      → parse given ≡ some u
      → not (u.scheme == "https") ≡ false
      → has_credentials u ≡ false
      → IsHttpsUrl u
  clean_url text u e https clean = record {
    given = text;
    parsed = e;
    secure = record { https = ground arith; no_credentials = clean };
  }

  kept_text : (u : Url) → IsHttpsUrl u → IsSecureText u.serialized
  kept_text u p = record {
    given = p.given;
    url = u;
    parsed = p.parsed;
    kept = refl;
    secure = p.secure;
  }

  private_url :
      (u : Url) (host : String)
      → u.host ≡ some host
      → (not (u.scheme == "https") && not (u.scheme == "http" && is_local_host host)) ≡ false
      → has_credentials u ≡ false
      → IsSecure u ⊎ IsLocal u
  private_url u host found allowed clean = elim (Bool-cases (u.scheme == "https")) [
    | inl s ↦ inl (record { https = s; no_credentials = clean })
    | inr s ↦ inr (record {
      http = ground arith;
      host = host;
      has_host = found;
      local = ground arith;
      no_credentials = clean;
    })
  ]

  private_text :
      (text : String) (u : Url) (host : String)
      → parse text ≡ some u
      → u.host ≡ some host
      → (not (u.scheme == "https") && not (u.scheme == "http" && is_local_host host)) ≡ false
      → has_credentials u ≡ false
      → IsPrivateText u.serialized
  private_text text u host e found allowed clean = record {
    given = text;
    url = u;
    parsed = e;
    kept = refl;
    private = private_url u host found allowed clean;
  }

  parse_https-Secure :
      (input label : String) → Accepts IsHttpsUrl (parse_https_provider_url parse input label)
  unfolding parse_https_provider_url
  parse_https-Secure input label =
      search (unless_bailed, found_or_bailed, accepts, clean_url) depth 16

  pub slack-Secure :
      (input : String) → Accepts IsSecureText (validate_slack_webhook_url parse input)
  unfolding validate_slack_webhook_url
  slack-Secure input =
      search (after IsSecureText IsHttpsUrl, parse_https-Secure, unless_bailed, accepts, kept_text)
        depth 12

  pub discord-Secure :
      (input : String) → Accepts IsSecureText (validate_discord_webhook_url parse input)
  unfolding validate_discord_webhook_url
  discord-Secure input =
      search (after IsSecureText IsHttpsUrl, parse_https-Secure, unless_bailed, accepts, kept_text)
        depth 12

  pub teams-Secure :
      (input : String) → Accepts IsSecureText (validate_microsoft_teams_webhook_url parse input)
  unfolding validate_microsoft_teams_webhook_url
  teams-Secure input =
      search (unless_bailed, found_or_bailed, accepts, kept_text, clean_url) depth 16

  pub custom-Private :
      (input : String) → Accepts IsPrivateText (validate_custom_webhook_url parse input)
  unfolding validate_custom_webhook_url
  custom-Private input = search (unless_bailed, found_or_bailed, accepts, private_text) depth 16
