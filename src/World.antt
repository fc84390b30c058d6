-- ===== src/World.antt =====
-- What a handler works on: the database, the requests that it has sent to other services, and the
-- clock; and a monad over it in which a raise keeps what was written before.
pub mod Keeps
pub mod Loops
pub mod Makes
pub mod Reads
pub mod Sends
pub mod Transacts
pub mod Within
use skyline_apiserver_extens.Common.{
  ℕ, String, Bool, Option, none, some, List, [], ◌∷◌, ◌++◌, if◌then◌else◌,
}
use skyline_apiserver_extens.Common.Int.{ℤ, ◌+ℤ◌}
use skyline_apiserver_extens.Runtime.{Json, Exn, Result, ok, err}
use skyline_apiserver_extens.Db.{Db}

-- A request that changes something outside, with what the code sends.
pub data Call : Type 0 where
  -- smtplib: a session, its login, the message, its end
  smtp_connect : Bool → Json → ℤ → Call
  smtp_login : Json → Json → Call
  smtp_sendmail : Json → String → String → String → Call
  smtp_quit : Call
  -- `conn.compute.delete_server(id, force=True)` of the scheduler's own connection
  force_delete_server : String → Call
  -- novaclient, by the user's token
  delete_server start_server stop_server : String → Call
  reboot_server attach_volume detach_volume : String → String → Call
  -- `cc.volumes.delete(id)`
  delete_volume : String → Call
  -- a rule of the port forwarding service; a rule of Neutron, with its floating address
  delete_portforwarding : String → Call
  delete_port_forwarding : String → String → Call
  -- a new rule of Neutron: its floating address, its protocol, its internal address, port of Neutron
  -- and port, its external port
  create_port_forwarding : String → String → String → String → ℕ → ℕ → Call
  -- `client.post(…/portforward)`: the name of the rule, the id, name, address and port of the
  -- instance, the external port, the service type, the protocol
  post_portforward : String → String → String → String → ℕ → Option ℕ → String → String → Call
  -- a request to the port forwarding service: its method and its URL
  portforward : String → String → Call
  -- a token that Keystone is to revoke
  revoke_keystone_token : String → Call
  -- Keystone's API by the system's token: the name of a project, a user's name and project, the
  -- project, the user and the role of an assignment
  post_project : String → Call
  post_user : String → String → Call
  put_role : String → String → String → Call
  delete_project delete_user : String → Call
  -- a user's password: the user's id, the old and the new one
  post_password : String → String → String → Call
  -- the quotas of a project; a security group of a project, a rule of one with its direction and
  -- its remote addresses
  set_nova_quotas set_cinder_quotas : String → Call
  post_security_group : String → Call
  post_security_group_rule : String → String → String → String → Call
  -- background tasks that a handler adds: the volumes of an instance, a new instance
  delete_volumes_later : String → List String → Call
  provision_later : String → String → Call

pub record World : Type 0 where
  pub db : Db
  -- the latest first
  pub calls : List Call
  -- `time.time()`, in whole seconds
  pub clock : ℤ

abbrev pub M {ℓ} : Type ℓ → Type ℓ
M A = World → Result A × World

module _ {ℓ κ} {A : Type ℓ} {B : Type κ} where
  infixl 5 ◌>>=◌ ◌>>◌
  unfoldable pub next : Result A × World → (A → M B) → Result B × World
  next (ok a, w) f = f a w
  next (err e, w) f = (err e, w)

  unfoldable pub ◌>>=◌ : M A → (A → M B) → M B
  ◌>>=◌ m f w = next (m w) f

  unfoldable pub ◌>>◌ : M A → M B → M B
  unfolding ◌>>=◌
  m >> k = m >>= λ _. k

module _ {ℓ} {A : Type ℓ} where
  unfoldable pub pure : A → M A
  pure a w = (ok a, w)

  unfoldable pub raise : Exn → M A
  raise e w = (err e, w)

  unfoldable pub lift : Result A → M A
  lift r w = (r, w)

  unfoldable pub handle : Result A × World → (Exn → M A) → Result A × World
  handle (ok a, w) f = (ok a, w)
  handle (err e, w) f = f e w

  -- `try: m` and `except Exception as e: f(e)`
  unfoldable pub try_except : M A → (Exn → M A) → M A
  try_except m f w = handle (m w) f

  -- a query of the database
  unfoldable pub query : (Db → A) → M A
  query f w = (ok (f w.db), w)

  -- a question to another service, whose answer may depend on all that went before
  unfoldable pub ask : (World → Result A) → M A
  ask f w = (f w, w)

-- a statement that changes the database
unfoldable pub execute : (Db → Db) → M (Unit {0})
execute f w = (ok tt, record w { db = f w.db })

-- a statement that may raise
unfoldable pub execute_or_raise : (Db → Result Db) → M (Unit {0})
execute_or_raise f w = elim (f w.db) [ ok d ↦ (ok tt, record w { db = d }) | err e ↦ (err e, w) ]

unfoldable pub time : M ℤ
time w = (ok w.clock, w)

unfoldable pub sleep : ℤ → M (Unit {0})
sleep s w = (ok tt, record w { clock = w.clock +ℤ s })

-- Send a request; `answer` says whether it raised.
unfoldable pub request : (World → Call → Result (Unit {0})) → Call → M (Unit {0})
request answer c w = (answer w c, record w { calls = c ∷ w.calls })

-- Send a request whose answer is used.
unfoldable pub exchange {ℓ} : {A : Type ℓ} → (World → Result A) → Call → M A
exchange answer c w = (answer w, record w { calls = c ∷ w.calls })

-- `background_tasks.add_task(…)`
unfoldable pub add_task : Call → M (Unit {0})
add_task c w = (ok tt, record w { calls = c ∷ w.calls })

module _ {ℓ} {A : Type ℓ} where
  -- `for x in xs: body(x)`
  unfoldable pub for_each : List A → (A → M (Unit {0})) → M (Unit {0})
  for_each [] body = pure tt
  for_each (x ∷ xs) body = body x >> for_each xs body

-- To unfold this is to unfold the steps above, but for loops.
unfoldable pub steps : Unit {0}
unfolding next ◌>>=◌ ◌>>◌ pure raise lift handle try_except query ask execute execute_or_raise time
    sleep request exchange add_task
steps = tt
