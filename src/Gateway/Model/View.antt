-- ===== src/Gateway/Model/View.antt =====
-- src/gateway/model/view.rs: the reconciled graph of gateways and routes. A `BTreeMap` is an
-- association list in the order of its keys.
use proxy.Common.{ℕ, Bool, Option, List}
use proxy.Common.Text.{Str}
use proxy.Common.Signed.{I64}

pub record ParentRef : Type 0 where
  pub group : Str
  pub kind : Str
  pub namespace : Option Str
  pub name : Str
  pub section_name : Option Str
  pub port : Option ℕ

pub record FrontendValidation : Type 0 where
  pub ca_bundle_pem : Str
  pub allow_insecure_fallback : Bool

pub data TlsMode : Type 0 where
  terminate : TlsMode
  passthrough : TlsMode

pub record ListenerState : Type 0 where
  pub name : Str
  pub protocol : Str
  pub port : ℕ
  pub hostname : Option Str
  pub tls_mode : Option TlsMode
  pub frontend_validation : Option FrontendValidation
  pub programmed : Bool

pub record GatewayState : Type 0 where
  pub namespace : Str
  pub name : Str
  pub generation : I64
  pub listeners : List ListenerState
  pub backend_client_cert_id : Option Str

pub record ListenerSetState : Type 0 where
  pub namespace : Str
  pub name : Str
  pub generation : I64
  pub created_at : I64
  pub parent_ref : ParentRef
  pub listeners : List ListenerState
  pub conflicts : List (Str × Str)
  pub accepted : Bool
  pub programmed : Bool
  pub reason : Str
  pub listener_cert_errors : List (Option Str)
  pub listener_kind_errors : List (Option Str)
