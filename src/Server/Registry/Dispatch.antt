-- ===== src/Server/Registry/Dispatch.antt =====
-- Registration and dispatch of server.go against a description of what they promise.
use goat.Base.{
  ◌⊎◌, ◌≡◌, ◌≢◌, ◌↔◌, refl, sym, ap, subst, ◌∙◌, inl, inr, Bool, true, false, Option, none, some,
  ◌∷◌, ◌++◌, lookup, insert, lookup-insert, Bytes, Bytes_eq, bytes_eq_iff, Bool-cases, Option-cases,
  arith, is_some, ◌==◌, if◌then◌else◌,
}
use goat.Rpc.{RequestHeader, Rpc}
use goat.Chan.{done, panicked}
use goat.Encoding.Method.{strip_slash, parse_raw_method}
use goat.Encoding.Method.RoundTrip.{HasNoSlash, parse_raw_method_iff}
use goat.Server.Registry.{
  MethodDesc, StreamDesc, ServiceDesc, ServiceInfo, Server, service_info, register_service, Action,
  no_header, bad_method, wrong_destination, unknown_service, unhandled_method, unary, streaming,
  dispatch, in_methods, in_streams,
}

-- An Rpc asks this server for a method of a service that it has.
pub record Asks {H S : Type 0} (s : Server H S) (rpc : Rpc) (si : ServiceInfo H S) (method : Bytes)
    : Type 0 where
  pub header : RequestHeader
  pub service : Bytes
  pub present : rpc.header ≡ some header
  pub addressed : header.destination ≡ s.id
  pub named : strip_slash header.method ≡ service ++ b'/' ∷ method
  pub plain : HasNoSlash method
  pub known : lookup service s.services ≡ some si

module _ {H S : Type 0} where
  Asks-dispatch :
      (s : Server H S) (rpc : Rpc) (si : ServiceInfo H S) (method : Bytes)
      → Asks s rpc si method
      → dispatch H S s rpc ≡ in_methods H S si method (lookup method si.methods)
  unfolding dispatch
  Asks-dispatch s rpc si method a =
      let parsed = (parse_raw_method_iff a.header.method a.service method).1 (a.named, a.plain) in
      let addressed = (bytes_eq_iff a.header.destination s.id).1 a.addressed in
      rw a.present (rw parsed (rw addressed (rw a.known)))

  -- A dispatch that gets as far as a service was asked for.
  dispatch-Asks :
      (s : Server H S) (rpc : Rpc) (act : Action H S)
      → dispatch H S s rpc ≡ act
      → act ≢ no_header
      → act ≢ bad_method
      → act ≢ wrong_destination
      → act ≢ unknown_service
      → (si : ServiceInfo H S) × (method : Bytes) × Asks s rpc si method
  unfolding dispatch
  dispatch-Asks s rpc act e a b c d = elim (Option-cases rpc.header) [
    | inl n ↦ absurd (a (sym e ∙ rw n))
    | inr (h, p) ↦ elim (Option-cases (parse_raw_method h.method)) [
      | inl n ↦ absurd (b (sym e ∙ rw p (rw n)))
      | inr ((service, method), q) ↦ elim (Bool-cases (h.destination == s.id)) [
        | inr n ↦ absurd (c (sym e ∙ rw p (rw q (rw n))))
        | inl t ↦ elim (Option-cases (lookup service s.services)) [
          | inl n ↦ absurd (d (sym e ∙ rw p (rw q (rw t (rw n)))))
          | inr (si, k) ↦
              let parts = (parse_raw_method_iff h.method service method).0 q in
              (
                si,
                method,
                record {
                  header = h;
                  service = service;
                  present = p;
                  addressed = (bytes_eq_iff h.destination s.id).0 t;
                  named = parts.0;
                  plain = parts.1;
                  known = k;
                },
              )
        ]
      ]
    ]
  ]

  in_streams-ne-unary :
      (si si' : ServiceInfo H S) (o : Option (StreamDesc H S)) (md : MethodDesc H S)
      → in_streams H S si o ≢ unary si' md
  in_streams-ne-unary si si' none md e = cc
  in_streams-ne-unary si si' (some sd) md e = cc

  in_methods-unary :
      (si si' : ServiceInfo H S) (method : Bytes) (md : MethodDesc H S)
      → in_methods H S si method (lookup method si.methods) ≡ unary si' md
      → (si ≡ si') × (lookup method si'.methods ≡ some md)
  in_methods-unary si si' method md e = elim (Option-cases (lookup method si.methods)) [
    | inl k ↦ absurd (in_streams-ne-unary si si' (lookup method si.streams) md (rw k at e))
    | inr (md', k) ↦
        let e' : unary si md' ≡ unary si' md = rw k at e in
        let same : si ≡ si' = cc in
        let one : md' ≡ md = cc in
        (same, subst (λ x. lookup method x.methods ≡ some md) same (k ∙ ap some one))
  ]

  in_methods-streaming :
      (si si' : ServiceInfo H S) (method : Bytes) (sd : StreamDesc H S)
      → in_methods H S si method (lookup method si.methods) ≡ streaming si' sd
      → (si ≡ si') × (lookup method si'.methods ≡ none) × (lookup method si'.streams ≡ some sd)
  in_methods-streaming si si' method sd e = elim (Option-cases (lookup method si.methods)) [
    | inr (md, k) ↦ let e' : unary si md ≡ streaming si' sd = rw k at e in absurd (cc)
    | inl k ↦
        let e₁ : in_streams H S si (lookup method si.streams) ≡ streaming si' sd = rw k at e in
        elim (Option-cases (lookup method si.streams)) [
          | inl j ↦ let e' : unhandled_method ≡ streaming si' sd = rw j at e₁ in absurd (cc)
          | inr (sd', j) ↦
              let e' : streaming si sd' ≡ streaming si' sd = rw j at e₁ in
              let same : si ≡ si' = cc in
              let one : sd' ≡ sd = cc in
              (
                same,
                subst (λ x. lookup method x.methods ≡ none) same k,
                subst (λ x. lookup method x.streams ≡ some sd) same (j ∙ ap some one),
              )
        ]
  ]

  -- An Rpc is handed to a unary method exactly when it has a header, is addressed to this server,
  -- and its method name, after one leading slash, is that of a service registered here and of a
  -- method in it.
  pub dispatch-unary_iff :
      (s : Server H S) (rpc : Rpc) (si : ServiceInfo H S) (md : MethodDesc H S)
      → (dispatch H S s rpc ≡ unary si md)
        ↔ ((method : Bytes) × Asks s rpc si method × (lookup method si.methods ≡ some md))
  dispatch-unary_iff s rpc si md = (
    (λ e.
        let (si', method, a) =
          dispatch-Asks s rpc (unary si md) e (λ p. cc) (λ p. cc) (λ p. cc) (λ p. cc) in
        let (same, found) =
          in_methods-unary si' si method md (sym (Asks-dispatch s rpc si' method a) ∙ e) in
        (method, subst (λ x. Asks s rpc x method) same a, found)),
    λ x. Asks-dispatch s rpc si x.0 x.1 ∙ rw x.2,
  )

  -- An Rpc is handed to a stream exactly when it has a header, is addressed to this server, and its
  -- method name, after one leading slash, is that of a service registered here and of a stream in
  -- it, and of no unary method of that service.
  pub dispatch-streaming_iff :
      (s : Server H S) (rpc : Rpc) (si : ServiceInfo H S) (sd : StreamDesc H S)
      → (dispatch H S s rpc ≡ streaming si sd) ↔ (
          (method : Bytes) × Asks s rpc si method
          × (lookup method si.methods ≡ none)
          × (lookup method si.streams ≡ some sd))
  dispatch-streaming_iff s rpc si sd = (
    (λ e.
        let (si', method, a) =
          dispatch-Asks s rpc (streaming si sd) e (λ p. cc) (λ p. cc) (λ p. cc) (λ p. cc) in
        let (same, absent, found) =
          in_methods-streaming si' si method sd (sym (Asks-dispatch s rpc si' method a) ∙ e) in
        (method, subst (λ x. Asks s rpc x method) same a, absent, found)),
    λ x. Asks-dispatch s rpc si x.0 x.1 ∙ rw x.2 (rw x.3),
  )

  -- An Rpc is handed to a method exactly when it has a header, is addressed to this server, and its
  -- method name, after one leading slash, is that of a service registered here and of a method in it:
  -- of a unary one, or else of a stream.
  pub dispatch_iff :
      (s : Server H S) (rpc : Rpc) (si : ServiceInfo H S)
      → ((md : MethodDesc H S)
          → (dispatch H S s rpc ≡ unary si md)
            ↔ ((method : Bytes) × Asks s rpc si method × (lookup method si.methods ≡ some md)))
        × ((sd : StreamDesc H S)
            → (dispatch H S s rpc ≡ streaming si sd) ↔ (
                (method : Bytes) × Asks s rpc si method
                × (lookup method si.methods ≡ none)
                × (lookup method si.streams ≡ some sd)))
  dispatch_iff s rpc si =
      ((λ md. dispatch-unary_iff s rpc si md), λ sd. dispatch-streaming_iff s rpc si sd)

  -- RegisterService panics exactly when the implementation does not fit or the name is taken.
  pub register_service-panicked_iff :
      (fits : Bool) (sd : ServiceDesc H S) (s : Server H S)
      → (register_service H S fits sd s ≡ panicked)
        ↔ ((fits ≡ false) ⊎ (is_some (lookup sd.service_name s.services) ≡ true))
  unfolding register_service
  register_service-panicked_iff false sd s = ((λ e. inl refl), λ e. refl)
  register_service-panicked_iff true sd s =
      elim (Bool-cases (is_some (lookup sd.service_name s.services))) [
        | inl t ↦ ((λ e. inr t), λ e. rw t)
        | inr n ↦ rw n ((λ e. cc), λ e. ground arith)
      ]

  -- After a service was registered without a panic it is found under its name, and every other
  -- service as before.
  pub lookup-register_service :
      (fits : Bool) (sd : ServiceDesc H S) (s s' : Server H S) (name : Bytes)
      → register_service H S fits sd s ≡ done s'
      → lookup name s'.services
        ≡ (if sd.service_name == name then some (service_info H S sd) else lookup name s.services)
  unfolding register_service
  lookup-register_service false sd s s' name e = cc
  lookup-register_service true sd s s' name e =
      elim (Bool-cases (is_some (lookup sd.service_name s.services))) [
        | inl t ↦ let e' : panicked ≡ done s' = rw t at e in cc
        | inr n ↦
            let next : Server H S = record s {
              services = insert sd.service_name (service_info H S sd) s.services;
            } in
            let e' : done next ≡ done s' = rw n at e in
            let same : next ≡ s' = cc in
            subst
              (λ x. lookup name x.services ≡ (
                if sd.service_name == name
                then some (service_info H S sd)
                else lookup name s.services))
              same (lookup-insert sd.service_name name (service_info H S sd) s.services)
      ]
