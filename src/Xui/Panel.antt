-- ===== src/Xui/Panel.antt =====
-- The 3x-UI panels as the services see them through `XuiNodeClient` of xui/client.py: the results
-- of its methods, and the methods as an interface over an unknown state of all the panels. A call
-- returns a value or raises, and may change the state either way.
use vpn_control_panel.Prelude.{ℕ, List, ◌≡◌, true, Option, some, ok, contains, nat_eq}
use vpn_control_panel.Text.{Str, codes}
use vpn_control_panel.Json.{text, JsonObject, get}
use vpn_control_panel.Action.{Action}
use vpn_control_panel.Data.Models.{NodeRecord}

pub record XuiInbound : Type 0 where
  pub id : ℕ
  pub protocol : Str
  pub settings : JsonObject
  pub stream_settings : JsonObject
  pub sniffing : JsonObject
  pub raw : JsonObject

pub record XuiClientInfo : Type 0 where
  pub client : JsonObject
  pub inbound_ids : List ℕ

-- The exceptions of a call carry a message.
pub record Panel : Type 1 where
  pub World : Type 0
  pub list_inbounds : NodeRecord → Action World Str (List XuiInbound)
  pub list_clients : NodeRecord → Action World Str (List XuiClientInfo)
  pub get_client : NodeRecord → Str → Action World Str (Option XuiClientInfo)
  pub add_client : NodeRecord → JsonObject → List ℕ → Action World Str (Unit {0})
  pub attach_client : NodeRecord → Str → List ℕ → Action World Str (Unit {0})
  pub update_client : NodeRecord → Str → JsonObject → Action World Str (Unit {0})

-- What the services rely on: a client that a panel shows on an inbound is on it, a client that
-- was added or attached is on those inbounds, and no call takes a client off an inbound. A node
-- is known by its number, a client by its e-mail.
pub record IsLawful (P : Panel) : Type 1 where
  pub IsAttached : P.World → ℕ → Str → ℕ → Type 0
  pub get_client-shows :
      (n : NodeRecord) (e : Str) (w : P.World) (info : XuiClientInfo) (i : ℕ)
      → (P.get_client n e w).0 ≡ ok (some info)
      → contains info.inbound_ids i ≡ true
      → IsAttached (P.get_client n e w).1 n.id e i
  pub add_client-attaches :
      (n : NodeRecord) (payload : JsonObject) (ids : List ℕ) (w : P.World) (e : Str) (i : ℕ)
      → (P.add_client n payload ids w).0 ≡ ok tt
      → get (codes "email") payload ≡ some (text e)
      → contains ids i ≡ true
      → IsAttached (P.add_client n payload ids w).1 n.id e i
  pub attach_client-attaches :
      (n : NodeRecord) (e : Str) (ids : List ℕ) (w : P.World) (i : ℕ)
      → (P.attach_client n e ids w).0 ≡ ok tt
      → contains ids i ≡ true
      → IsAttached (P.attach_client n e ids w).1 n.id e i
  pub list_inbounds-keeps :
      (m : NodeRecord) (w : P.World) (n : ℕ) (e : Str) (i : ℕ)
      → IsAttached w n e i
      → IsAttached (P.list_inbounds m w).1 n e i
  pub get_client-keeps :
      (m : NodeRecord) (x : Str) (w : P.World) (n : ℕ) (e : Str) (i : ℕ)
      → IsAttached w n e i
      → IsAttached (P.get_client m x w).1 n e i
  pub add_client-keeps :
      (m : NodeRecord) (payload : JsonObject) (ids : List ℕ) (w : P.World) (n : ℕ) (e : Str) (i : ℕ)
      → IsAttached w n e i
      → IsAttached (P.add_client m payload ids w).1 n e i
  pub attach_client-keeps :
      (m : NodeRecord) (x : Str) (ids : List ℕ) (w : P.World) (n : ℕ) (e : Str) (i : ℕ)
      → IsAttached w n e i
      → IsAttached (P.attach_client m x ids w).1 n e i
