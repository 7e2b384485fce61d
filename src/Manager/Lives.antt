-- ===== src/Manager/Lives.antt =====
-- The clients of a manager and what they report to it, in telegram-bot-api/Client.cpp
-- (`on_update_authorization_state`): a client is active from its log in until it is logging out or
-- closing. The reports of a client come in their order.
use core_telegram_api.Common.{
  ℕ, ◌≡◌, Bool, true, false, not, ◌&&◌, ◌||◌, Option, none, some, [], if◌then◌else◌, nat_eq,
  bytes_eq, int_eq, ℤ, Map, find, insert, erase, Bytes,
}
use core_telegram_api.Manager.{
  FloodLibrary, Query, ClientInfo, Manager, send, close, hangup_shared, raw_event,
}

-- What a client is, as far as its manager is told.
pub record Life : Type 0 where
  pub tqueue_id : ℕ
  pub was_authorized : Bool
  pub logging_out : Bool
  pub closing : Bool

abbrev pub is_active : Life → Bool
is_active l = l.was_authorized && not (l.logging_out || l.closing)

abbrev pub newborn : ClientInfo → Life
newborn info = record {
  tqueue_id = info.tqueue_id;
  was_authorized = false;
  logging_out = false;
  closing = false;
}

-- The states of the authorization that are reported: `authorizationStateReady`,
-- `authorizationStateLoggingOut` and `authorizationStateClosing`.
pub data Authorization : Type 0 where
  ready logging_out closing : Authorization

-- What the client sends to its manager: that it is active, or that it is not any more.
unfoldable pub report : Authorization → Life → Option Bool
report ready l = if l.was_authorized then none else some true
report logging_out l =
    if not l.logging_out && (l.was_authorized && not l.closing) then some false else none
report closing l =
    if not l.closing && (l.was_authorized && not l.logging_out) then some false else none

abbrev pub become : Authorization → Life → Life
become ready l = record l { was_authorized = true }
become logging_out l = record l { logging_out = true }
become closing l = record l { closing = true }

-- A query comes, a client changes, a client ends, or the manager is to close.
pub data Event : Type 0 where
  ask : ℕ → ℕ → Option Bytes → Query → Event
  changes : ℕ → Authorization → Event
  ends : ℕ → Event
  shut : ℕ → Event

module _ (F : FloodLibrary) where
  pub record World : Type 0 where
    pub manager : Manager F
    pub lives : Map ℕ Life

  abbrev pub tell : ℕ → Option Bool → Manager F → Option (Manager F)
  tell id none m = some m
  tell id (some is_active) m = raw_event F id is_active m

  -- The life of a client that was just created.
  abbrev pub born : ℕ → Option ClientInfo → Map ℕ Life → Map ℕ Life
  born id none g = g
  born id (some info) g = insert id (newborn info) g

  abbrev pub with_manager : Map ℕ Life → Option (Manager F) → Option World
  with_manager g none = none
  with_manager g (some m) = some (record { manager = m; lives = g })

  unfoldable pub step : (Bytes → Option ℤ) → (ℤ → Bool) → Event → World → Option World
  unfolding report send hangup_shared close
  step to_integer_safe token_range (ask now id w q) x =
      elim (send F to_integer_safe token_range now id w q x.manager) [
        | none ↦ none
        | some (a, m) ↦ some (record { manager = m; lives = born id (find id m.clients) x.lives })
      ]
  step to_integer_safe token_range (changes id s) x = elim (find id x.lives) [
    | none ↦ none
    | some l ↦ with_manager (insert id (become s l) x.lives) (tell id (report s l) x.manager)
  ]
  step to_integer_safe token_range (ends id) x =
      with_manager (erase id x.lives) (hangup_shared F id x.manager)
  step to_integer_safe token_range (shut promise) x =
      some (record { manager = close F promise x.manager; lives = x.lives })

  -- What may happen: a new client has a free identifier, a client is ready only before it is logging
  -- out or closing, and it ends only after that.
  abbrev pub May : Event → World → Type 0
  May (ask now id w q) x = find id x.lives ≡ none
  May (changes id ready) x =
      (l : Life) × (find id x.lives ≡ some l) × ((l.logging_out || l.closing) ≡ false)
  May (changes id logging_out) x = (l : Life) × (find id x.lives ≡ some l)
  May (changes id closing) x = (l : Life) × (find id x.lives ≡ some l)
  May (ends id) x = (l : Life) × (find id x.lives ≡ some l) × ((l.logging_out || l.closing) ≡ true)
  May (shut promise) x = Unit

  abbrev pub started : Manager F → World
  started m = record { manager = m; lives = [] }
