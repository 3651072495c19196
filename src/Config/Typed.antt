-- ===== src/Config/Typed.antt =====
-- src/config.rs: a provider is validated as what it is.
use agents_router.Prelude.{◌≡◌, ◌∙◌, ap, arith}
use agents_router.Config.{ProviderType, ntfy}
use agents_router.Config.Checked.{ConfigError, Checked, ◌>>=◌, ◌>>◌, refused, accepted}
use agents_router.Config.Providers.{
  RawProviderConfig, ProviderConfigDetail, ProviderConfig, detail_provider_type,
}
use agents_router.ProviderUrls.{UrlParser}
use agents_router.Config.RawProviders.{
  to_validated, validated_detail, validated_ntfy, validated_webhook, validated_feishu_lark,
  validated_pushover, validated_slack, validated_discord, validated_telegram, validated_whatsapp,
  validated_wechat, validated_microsoft_teams, validated_email_smtp,
}

data HasType (t : ProviderType) : Checked ProviderConfigDetail → Type 0 where
  typed : (d : ProviderConfigDetail) → detail_provider_type d ≡ t → HasType t (accepted d)
  failed : (problem : ConfigError) → HasType t (refused problem)

module _ (t : ProviderType) where
  HasType->>= :
      {A : Type 0} (m : Checked A) (f : A → Checked ProviderConfigDetail)
      → ((a : A) → HasType t (f a))
      → HasType t (m >>= f)
  HasType->>= (accepted a) f h = h a
  HasType->>= (refused problem) f h = failed problem

  HasType->> :
      (m : Checked (Unit {0})) (f : Checked ProviderConfigDetail) → HasType t f → HasType t (m >> f)
  HasType->> (accepted a) f h = h
  HasType->> (refused problem) f h = failed problem

module _ (parse : UrlParser) (p : RawProviderConfig) where
  detail-HasType : (t : ProviderType) → HasType t (validated_detail parse p t)
  unfolding validated_detail detail_provider_type validated_ntfy validated_webhook
      validated_feishu_lark validated_pushover validated_slack validated_discord validated_telegram
      validated_whatsapp validated_wechat validated_microsoft_teams validated_email_smtp
  detail-HasType ntfy = search (HasType->>=, HasType->>, typed) depth 24
  detail-HasType t = search (HasType->>=, HasType->>, typed) depth 24

  provider_of_detail :
      (t : ProviderType) (m : Checked ProviderConfigDetail) (v : ProviderConfig)
      → HasType t m
      → (m >>= λ detail. accepted (record { id = p.id; detail = detail })) ≡ accepted v
      → (v.id ≡ p.id) × (detail_provider_type v.detail ≡ t)
  provider_of_detail t _ v (typed d h) e =
      let same : v ≡ record { id = p.id; detail = d } = ground arith in
      (ap (λ w. w.id) same, ap (λ w. detail_provider_type w.detail) same ∙ h)
  provider_of_detail t _ v (failed problem) e = ground arith

  -- A provider that is validated keeps its id and its type.
  pub validated_provider_keeps_its_type :
      (v : ProviderConfig)
      → to_validated parse p ≡ accepted v
      → (v.id ≡ p.id) × (detail_provider_type v.detail ≡ p.provider_type)
  unfolding to_validated
  validated_provider_keeps_its_type v e =
      provider_of_detail p.provider_type _ v (detail-HasType p.provider_type) e
