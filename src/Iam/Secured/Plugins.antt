-- ===== src/Iam/Secured/Plugins.antt =====
-- What a provider of credentials writes leaves the mode of TLS as it is.
use amazon_redshift_python_d.Prelude.{refl, Option, none, some, [], ◌++◌}
use amazon_redshift_python_d.Prelude.Action.{lift, pure, self, ◌>>=◌, ◌>>◌}
use amazon_redshift_python_d.Prelude.Keeps.{
  Keeps, each, keeping, if-Keeps, lift-Keeps, raise-Keeps, bind-Keeps, except_do-Keeps,
}
use amazon_redshift_python_d.Prelude.Result.{ok}
use amazon_redshift_python_d.Prelude.Text.{Text, codes, text_eq}
use amazon_redshift_python_d.Iam.Login.{
  Holder, saml_holder, session_holder, token_holder, IamMetadata, Outside, Provider, Task, put_attr,
}
use amazon_redshift_python_d.Iam.Plugins.{
  choose_provider, current_token, load_named, load_provider, native_credentials, new_aws_provider,
  put_metadata, put_text, set_native_auth_plugin_properties, use_metadata,
}
use amazon_redshift_python_d.Iam.Reads.{attr-Keeps, reading}
use amazon_redshift_python_d.Iam.Properties.{Attr, absent, text, texts, flag, number}
use amazon_redshift_python_d.Iam.Secured.{Safe, attr-Keeps, put_attr-Keeps}

put_text-Keeps : (o : Option Text) → Keeps Safe (put_text (codes "db_user") o)
unfolding put_text text_eq
put_text-Keeps none = lift-Keeps _
put_text-Keeps (some t) = put_attr-Keeps (codes "db_user") _ refl

put_metadata-Keeps : (F : Outside) (o : Option IamMetadata) → Keeps Safe (put_metadata F o)
unfolding put_metadata text_eq
put_metadata-Keeps F none = lift-Keeps _
put_metadata-Keeps F (some m) =
    search
      (
        reading,
        put_text-Keeps,
        λ (v : Attr). put_attr-Keeps (codes "auto_create") v refl,
        λ (v : Attr). put_attr-Keeps (codes "force_lowercase") v refl,
        λ (v : Attr). put_attr-Keeps (codes "db_groups") v refl,
      )
      depth 20

plugin_load-Keeps :
    (F : Outside) (name : Text) → Keeps Safe (do login ← self; lift (F.load name login.info))
plugin_load-Keeps F name = each (λ l h. h)

named_load-Keeps :
    (F : Outside) (found : Text → Task) (name : Text)
    → ((t : Text) → Keeps Safe (found t))
    → Keeps Safe
        (do login ← self; provider ← lift (F.load name login.info); found name; pure provider)
named_load-Keeps F found name keeps = search (keeping, keeps) depth 10

load_named-Keeps :
    (F : Outside) (found : Text → Task) (name : Text)
    → ((t : Text) → Keeps Safe (found t))
    → Keeps Safe (load_named F found name)
unfolding load_named
load_named-Keeps F found name keeps = except_do-Keeps _ _ (plugin_load-Keeps F name) (λ e.
    if-Keeps _
      (except_do-Keeps _ _
        (named_load-Keeps F found (codes "redshift_connector.plugin." ++ name) keeps)
        (λ e2. if-Keeps _ (raise-Keeps _) (raise-Keeps e2)))
      (raise-Keeps e))

load_provider-Keeps :
    (F : Outside) (found : Text → Task) (name : Attr)
    → ((t : Text) → Keeps Safe (found t))
    → Keeps Safe (load_provider F found name)
unfolding load_provider
load_provider-Keeps F found (text name) keeps = load_named-Keeps F found name keeps
load_provider-Keeps F found absent keeps = raise-Keeps _
load_provider-Keeps F found (flag b) keeps = raise-Keeps _
load_provider-Keeps F found (number z) keeps = raise-Keeps _
load_provider-Keeps F found (texts ts) keeps = raise-Keeps _

new_aws_provider-Keeps : (F : Outside) → Keeps Safe (new_aws_provider F)
unfolding new_aws_provider
new_aws_provider-Keeps F = search reading depth 10

pub choose_provider-Keeps : (F : Outside) → Keeps Safe (choose_provider F)
unfolding choose_provider text_eq
choose_provider-Keeps F = bind-Keeps (attr-Keeps _) (λ name. if-Keeps _ (new_aws_provider-Keeps F) (
    load_provider-Keeps F (λ found. put_attr (codes "credentials_provider") (text found)) name
      (λ t. put_attr-Keeps (codes "credentials_provider") (text t) refl)))

pub use_metadata-Keeps : (F : Outside) (provider : Provider) → Keeps Safe (use_metadata F provider)
unfolding use_metadata
use_metadata-Keeps F provider = search (keeping, put_metadata-Keeps) depth 10

current_token-Keeps :
    (F : Outside) (provider : Provider) (holder : Holder)
    → Keeps Safe (current_token F provider holder)
unfolding current_token text_eq
current_token-Keeps F provider (token_holder token none) = lift-Keeps _
current_token-Keeps F provider (token_holder token (some expiration)) =
    search (keeping, λ (v : Attr). put_attr-Keeps (codes "idp_token") v refl) depth 10
current_token-Keeps F provider (saml_holder m c) = raise-Keeps _
current_token-Keeps F provider (session_holder c) = raise-Keeps _

native_credentials-Keeps : (F : Outside) (name : Attr) → Keeps Safe (native_credentials F name)
unfolding native_credentials
native_credentials-Keeps F name =
    bind-Keeps (load_provider-Keeps F (λ found. pure tt) name (λ t. lift-Keeps (ok tt)))
      (λ provider.
        if-Keeps _
          (bind-Keeps (lift-Keeps (provider.get_credentials 0))
            (λ holder. current_token-Keeps F provider holder))
          (lift-Keeps (ok [])))

pub set_native-Keeps : (F : Outside) → Keeps Safe (set_native_auth_plugin_properties F)
unfolding set_native_auth_plugin_properties text_eq
set_native-Keeps F =
    search
      (
        reading,
        native_credentials-Keeps,
        λ (v : Attr). put_attr-Keeps (codes "web_identity_token") v refl,
      )
      depth 20
