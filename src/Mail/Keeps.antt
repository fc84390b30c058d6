-- ===== src/Mail/Keeps.antt =====
-- Sending a mail writes nothing to the database.
use skyline_apiserver_extens.Common.{String}
use skyline_apiserver_extens.World.Keeps.{
  KeepsDb, keeps-bind, keeps-then, keeps-lift, keeps-pure, keeps-query, keeps-if, keeps-try,
  keeps-request,
}
use skyline_apiserver_extens.Env.{Env, setting_value}
use skyline_apiserver_extens.Mail.{
  SmtpConfig, get_smtp_config, log_in, deliver, send_lifecycle_warning_email,
}

module _ (env : Env) where
  setting_value-KeepsDb : (key : String) → KeepsDb (setting_value env key)
  unfolding setting_value
  setting_value-KeepsDb key = keeps-bind (keeps-query _) (λ row. keeps-lift _)

  get_smtp_config-KeepsDb : KeepsDb (get_smtp_config env)
  unfolding get_smtp_config
  get_smtp_config-KeepsDb = keeps-bind (setting_value-KeepsDb "smtp_host") λ host.
      keeps-bind (setting_value-KeepsDb "smtp_port") λ port.
        keeps-bind (setting_value-KeepsDb "smtp_user") λ user.
          keeps-bind (setting_value-KeepsDb "smtp_password") λ password.
            keeps-bind (setting_value-KeepsDb "smtp_use_tls") λ use_tls.
              keeps-bind (setting_value-KeepsDb "smtp_from_address") λ from_address. keeps-pure _

  deliver-KeepsDb :
      (cfg : SmtpConfig) (to subject body : String) → KeepsDb (deliver env cfg to subject body)
  unfolding deliver log_in
  deliver-KeepsDb cfg to subject body = keeps-bind (keeps-lift _) λ port.
      keeps-then (keeps-request env.answer _) (
        keeps-then (keeps-if _ (keeps-request env.answer _) (keeps-pure _)) (
          keeps-then (keeps-request env.answer _)
            (keeps-then (keeps-request env.answer _) (keeps-pure _))))

  pub send-KeepsDb :
      (to subject body : String) → KeepsDb (send_lifecycle_warning_email env to subject body)
  unfolding send_lifecycle_warning_email
  send-KeepsDb to subject body = keeps-bind get_smtp_config-KeepsDb λ cfg.
      keeps-if _ (keeps-pure _)
        (keeps-try (deliver-KeepsDb cfg to subject body) (λ e. keeps-pure _))
