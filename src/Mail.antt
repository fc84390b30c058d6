-- ===== src/Mail.antt =====
-- utils/email.py. The HTML body is a fixed template around the arguments of the message.
pub mod Keeps
use skyline_apiserver_extens.Common.{
  String, Bool, true, false, not, ◌&&◌, ◌||◌, List, if◌then◌else◌,
}
use skyline_apiserver_extens.Runtime.{Json, truthy, Result}
use skyline_apiserver_extens.World.{
  World, Call, smtp_connect, smtp_login, smtp_sendmail, smtp_quit, M, ◌>>=◌, ◌>>◌, pure, lift,
  try_except, request,
}
use skyline_apiserver_extens.Env.{Env, int_of, setting_value}

-- The dict of `_get_smtp_config`.
pub record SmtpConfig : Type 0 where
  pub smtp_host : Json
  pub smtp_port : Json
  pub smtp_user : Json
  pub smtp_password : Json
  pub smtp_use_tls : Json
  pub smtp_from_address : Json

module _ (env : Env) where
  unfoldable pub get_smtp_config : M SmtpConfig
  get_smtp_config = do
    host ← setting_value env "smtp_host"
    port ← setting_value env "smtp_port"
    user ← setting_value env "smtp_user"
    password ← setting_value env "smtp_password"
    use_tls ← setting_value env "smtp_use_tls"
    from_address ← setting_value env "smtp_from_address"
    pure (record {
      smtp_host = host;
      smtp_port = port;
      smtp_user = user;
      smtp_password = password;
      smtp_use_tls = use_tls;
      smtp_from_address = from_address;
    })

  unfoldable pub log_in : SmtpConfig → M (Unit {0})
  log_in cfg =
      if truthy cfg.smtp_user && truthy cfg.smtp_password
      then request env.answer (smtp_login cfg.smtp_user cfg.smtp_password)
      else pure tt

  -- the `try` block: connect, log in, send, quit
  unfoldable pub deliver : SmtpConfig → String → String → String → M Bool
  deliver cfg to_email subject body = do
    port ← lift (int_of env cfg.smtp_port)
    request env.answer (smtp_connect (truthy cfg.smtp_use_tls) cfg.smtp_host port)
    log_in cfg
    request env.answer (smtp_sendmail cfg.smtp_from_address to_email subject body)
    request env.answer smtp_quit
    pure true

  -- `subject` and `html_body` are the texts that the code formats.
  unfoldable pub send_lifecycle_warning_email : String → String → String → M Bool
  send_lifecycle_warning_email to_email subject html_body = do
    cfg ← get_smtp_config
    if not (truthy cfg.smtp_host) || not (truthy cfg.smtp_from_address)
        then pure false
        else try_except (deliver cfg to_email subject html_body) (λ _. pure false)
