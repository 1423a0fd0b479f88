-- ===== src/Relay/Router/Ledger.antt =====
-- What the router of bhumi-relay/src/router.rs promises of its devices, without its lists: for each
-- identity whether it is registered, with which channel, and which commits are good.
pub mod Refines
use bhumi.Base.{
  ℕ, ◌≡◌, refl, sym, ap, subst, ◌∙◌, List, [], ◌∷◌, Bool, true, false, not, ◌&&◌, ◌||◌, Option,
  none, some, if◌then◌else◌, bytes_has_eq, nat_has_eq, bytes_eq_iff, ◌==◌, arith, inl, inr,
  Option-cases, Bool-cases,
}
use mathlib.Core.Path.{fun_ext}
use bhumi.Base.Map
use bhumi.Base.Map.{lookup-insert, lookup-remove}
use bhumi.Base.Set
use bhumi.Base.Set.{contains-remove, contains-extend}
use bhumi.Proto.Buffer.{Bytes}
use bhumi.Proto.SendResult.{send_err_not_connected, send_err_invalid_preimage}
use bhumi.Relay.Router.{
  Router, DeviceState, Claim, claimed, refused, register, unregister, add_commits, handle_ack,
  check_cache, claim, take_commit, add_pending, drop_pending, cleanup_cache,
}
use bhumi.Relay.Router.Commits.{
  Event, registers, unregisters, adds, acks, checks, claims, pends, drops, cleans, apply, run,
}

pub record Place : Type 0 where
  pub channel : ℕ
  pub good : Bytes → Bool

abbrev pub Ledger : Type 0
Ledger = Bytes → Option Place

unfoldable pub place_of : Option DeviceState → Option Place
place_of none = none
place_of (some d) = some (record { channel = d.sender; good = λ c. Set.contains c d.commits })

unfoldable pub view : Router → Ledger
view r = λ id. place_of (Map.lookup id r.devices)

-- More commits for a device that is there.
unfoldable pub widen : List Bytes → Option Place → Option Place
widen commits none = none
widen commits (some p) = some (record p { good = λ c. Set.contains c commits || p.good c })

-- A claim with a commit: a device whose channel is closed is forgotten, and the commit is good no more.
unfoldable pub spend : (ℕ → Bool) → Bytes → Option Place → Option Place
spend is_closed commit none = none
spend is_closed commit (some p) =
    if is_closed p.channel
    then none
    else some (record p { good = λ c. not (commit == c) && p.good c })

unfoldable pub change : Bytes → (Option Place → Option Place) → Ledger → Ledger
change id f l = λ j. if id == j then f (l j) else l j

-- What an event does to the ledger.
unfoldable pub enter : (Bytes → Bytes) → Event → Ledger → Ledger
enter sha256 (registers now id commits responses sender) l =
    change id (λ p. some (record { channel = sender; good = λ c. Set.contains c commits })) l
enter sha256 (unregisters id) l = change id (λ p. none) l
enter sha256 (adds id commits) l = change id (widen commits) l
enter sha256 (claims is_closed id preimage) l = change id (spend is_closed (sha256 preimage)) l
enter sha256 (acks now msg_id response) l = l
enter sha256 (checks now preimage) l = l
enter sha256 (pends msg_id preimage tx) l = l
enter sha256 (drops msg_id) l = l
enter sha256 (cleans now) l = l

unfoldable pub enter_all : (Bytes → Bytes) → List Event → Ledger → Ledger
enter_all sha256 [] l = l
enter_all sha256 (e ∷ es) l = enter_all sha256 es (enter sha256 e l)

-- The answer to a claim: the channel of the device, or the status of the refusal.
pub data Answer : Type 0 where
  passes : ℕ → Answer
  refuses : ℕ → Answer

unfoldable pub answer : (ℕ → Bool) → Bytes → Option Place → Answer
answer is_closed commit none = refuses send_err_not_connected
answer is_closed commit (some p) =
    if is_closed p.channel
    then refuses send_err_not_connected
    else if p.good commit
    then passes p.channel
    else refuses send_err_invalid_preimage

unfoldable pub answer_of : Claim → Answer
answer_of (claimed msg_id channel) = passes channel
answer_of (refused outcome) = refuses outcome.status
