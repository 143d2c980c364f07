-- ===== src/Server/Keeps.antt =====
-- OnMessage of core/server/xrpc_server.cc changes the services' data by their own methods only.
use mathlib.Core.List.{foldl}
use xrpc.Base.{
  ℕ, ◌≡◌, Bool, true, false, Option, none, some, List, [], ◌∷◌, Bytes, Result, ok, throw,
  if◌then◌else◌, Option-cases, inl, inr,
}
use xrpc.Base.Dict.{lookup}
use xrpc.Proto.{RpcHeader, Protobuf, empty_header}
use xrpc.Codec.ZlibCalls.{Zlib}
use xrpc.Codec.{decode}
use xrpc.Controller.{Controller, fresh, destroy}
use xrpc.Server.{
  Service, Server, find_method, raised, call_service_method, refuse, answer, invoke, dispatch,
  guarded, on_message, cancelled_error, request_error,
}

-- Every method of a service keeps what holds of the data, and so do the closures that it is given.
pub record Keeps {pb : Protobuf} {W : Type 0} (P : W → Type 0) (service : Service pb W)
    : Type 0 where
  pub call_keeps :
      (method : ℕ) (world : W) (c : Controller) (request response : pb.Message)
      → P world
      → P (service.call method world c request response).world
  pub closure_keeps : (world : W) (closure : ℕ) → P world → P (service.run_closure world closure)

foldl-keeps :
    {W : Type 0} (P : W → Type 0) (f : W → ℕ → W)
    → ((w : W) (k : ℕ) → P w → P (f w k))
    → (ks : List ℕ) (w : W) → P w
    → P (foldl f w ks)
foldl-keeps P f h [] w p = p
foldl-keeps P f h (k ∷ ks) w p = foldl-keeps P f h ks (f w k) (h w k p)

chosen : {X : Type 0} (Q : X → Type 0) (b : Bool) (x y : X) → Q x → Q y → Q (if b then x else y)
chosen Q true x y p q = p
chosen Q false x y p q = q

module _ (pb : Protobuf) (z : Zlib) {W : Type 0} (P : W → Type 0) where
  answer-keeps : (h : RpcHeader) (r : W × pb.Message × Option Bytes) → P r.0 → P (answer pb z h r).0
  unfolding answer
  answer-keeps h (world, response, some reason) p = p
  answer-keeps h (world, response, none) p = p

  guarded-keeps : (r : W × Result Bytes) → P r.0 → P (guarded pb z r).0
  guarded-keeps (world, ok text) p = p
  guarded-keeps (world, throw e) p = p

  module _ (s : Server pb W)
      (keeps : (name : Bytes) (service : Service pb W)
        → lookup name s.services ≡ some service
        → Keeps P service)
      (now : P s.world) where
    call_service_method-keeps :
        (name : Bytes) (method : ℕ) (request response : pb.Message) (cancelled : Bool)
        → P (call_service_method pb s name method request response cancelled).0
    unfolding call_service_method
    call_service_method-keeps name method request response cancelled =
        elim (Option-cases (lookup name s.services)) [
          | inl e ↦ rw (e, call_service_method) now
          | inr (service, e) ↦
              let k = keeps name service e in
              let r = service.call method s.world fresh request response in
              rw (e, call_service_method)
                (chosen (λ (r : W × pb.Message × Option Bytes). P r.0) cancelled
                  (s.world, response, some cancelled_error)
                  (
                    foldl service.run_closure r.world (destroy r.controller),
                    r.response,
                    raised pb r,
                  )
                  now
                  (foldl-keeps P service.run_closure k.closure_keeps (destroy r.controller) r.world
                    (k.call_keeps method s.world fresh request response now)))
        ]

    invoke-keeps :
        (h : RpcHeader) (args : Bytes) (service : Service pb W) (method : ℕ)
        → P (invoke pb z s h args service method).0
    unfolding invoke
    invoke-keeps h args service method =
        let (parsed, request) = pb.parse (service.request_prototype method) args in
        let called =
          call_service_method pb s h.service_name method request (service.response_prototype method)
            h.cancelled in
        chosen (λ (r : W × Result Bytes). P r.0) parsed (answer pb z h called)
          (s.world, refuse pb z h 4 request_error)
          (answer-keeps h called (
            call_service_method-keeps h.service_name method request
              (service.response_prototype method) h.cancelled))
          now

    dispatch-keeps : (h : RpcHeader) (args : Bytes) → P (dispatch pb z s h args).0
    unfolding dispatch
    dispatch-keeps h args = elim (Option-cases (lookup h.service_name s.services)) [
      | inl e ↦ rw (e, dispatch) now
      | inr (service, e) ↦ elim (Option-cases (find_method h.method_name service.methods)) [
        | inl f ↦ rw (e, f, dispatch) now
        | inr (method, f) ↦ rw (e, f, dispatch) (invoke-keeps h args service method)
      ]
    ]

    -- What the methods and the closures of every service that is registered keep of the data,
    -- OnMessage keeps, whatever bytes arrive.
    pub on_message-keeps : (input : Bytes) → P (on_message pb z s input).0
    unfolding on_message
    on_message-keeps input =
        let d = decode pb z input empty_header [] in
        guarded-keeps _ (
          chosen (λ (r : W × Result Bytes). P r.0) d.success _ _
            (chosen (λ (r : W × Result Bytes). P r.0) d.header.cancelled _ _ now
              (dispatch-keeps d.header d.args))
            now)
