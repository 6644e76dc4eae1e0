-- ===== src/Driver/Artifacts.antt =====
-- Which files are generated.
use protoc_gen_apigw.Driver.Run.{
  no_imports, render_open_api, go_artifact, render_open_api_without_service, apply_template,
  definitions_rendered, execute, forced_artifact, oas_extension, or_fail, process_file,
  render_forced_messages, render_services, with_header, Texts, add_generator_file, Artifact, Module,
  ProtoFile,
}
use protoc_gen_apigw.Base.{
  ap, append_assoc, ◌∙◌, append-nil, is_empty, none, sym, [], true, ℕ, if◌then◌else◌, some, ◌∷◌,
  ◌≡◌, false, map, ◌++◌, Bool, List, Option,
}
use protoc_gen_apigw.Base.Outcome.{exhausted, panic, err, ok, Outcome}
use protoc_gen_apigw.OpenApi.Service.Webhooks.Sound.{
  build_open_api_without_service-Defines, Defines, any_forced,
}
use protoc_gen_apigw.Driver.{render_header, render_service, FileImports, FileService}
use protoc_gen_apigw.OpenApi.Service.Webhooks.{build_open_api_without_service, Definitions}
use protoc_gen_apigw.Base.Returns.{WhenOk-any, WhenOk-weaken, WhenOk->>=, WhenOk}
use protoc_gen_apigw.Base.Text.{codes, Text}
use protoc_gen_apigw.OpenApi.Schema.Ensures.{AllOk}
use protoc_gen_apigw.Descriptor.{Message}
use mathlib.Core.List.{map-append}

abbrev pub names : List Artifact → List Text
names artifacts = map (λ (a : Artifact). a.name) artifacts

abbrev pub service_names : ProtoFile → List FileService → List Text
service_names f services =
    map (λ (s : FileService). f.output_path (oas_extension s.snake_name)) services

module _ (registry : List Message) where
  -- The names of the files that are generated for a file: a document for each service, one for the
  -- exposed messages if there are any, and the Go code if there is a service.
  abbrev pub generated : ProtoFile → List Text
  generated f =
      service_names f f.services
      ++ ((if any_forced registry f.messages
            then f.output_path (oas_extension f.package_snake_name) ∷ []
            else [])
          ++ (if is_empty f.services then [] else f.output_path (codes ".apigw.go") ∷ []))

abbrev is_some : {A : Type 0} → Option A → Bool
is_some none = false
is_some (some a) = true

names-add :
    (m : Module) (name contents : Text)
    → names (add_generator_file name contents m).artifacts ≡ names m.artifacts ++ name ∷ []
names-add m name contents = map-append _ m.artifacts _

module _ (registry : List Message) (texts : Texts) where
  -- What a step adds to the generated files.
  abbrev Adds : Module → List Text → Module → Type 0
  Adds m ns m' = names m'.artifacts ≡ names m.artifacts ++ ns

  render_services-Adds :
      (f : ProtoFile) (services : List FileService) (body : Text) (ix : FileImports) (m : Module)
      → WhenOk
          (λ out. Adds m (service_names f services) out.1)
          (render_services registry texts f services body ix m)
  unfolding render_services
  render_services-Adds f [] body ix m = sym (append-nil (names m.artifacts))
  render_services-Adds f (s ∷ services) body ix m =
      let name = f.output_path (oas_extension s.snake_name) in
      WhenOk->>= {D = (Text × FileImports) × Module} (λ _. Unit {0}) _
        (render_service registry texts.service_text s name ix) _
        (WhenOk-any (render_service registry texts.service_text s name ix))
        (λ (text, ix') _.
          WhenOk->>= {D = (Text × FileImports) × Module} (λ _. Unit {0}) _
            (render_open_api registry texts s m.mapper) _
            (WhenOk-any (render_open_api registry texts s m.mapper))
            (λ (oas, mapper) _.
              let m' = add_generator_file name oas (record m { mapper = mapper }) in
              WhenOk-weaken
                (λ (out : (Text × FileImports) × Module). Adds m' (service_names f services) out.1)
                _ _
                (λ out e.
                  e
                  ∙ rw (names-add (record m { mapper = mapper }) name oas)
                      (append_assoc (names m.artifacts) (name ∷ []) (service_names f services)))
                (render_services-Adds f services (body ++ text) ix' m')))

  AllOk-WhenOk : {A : Type 0} (P : A → Type 0) (m : Outcome A) → AllOk P m → WhenOk P m
  AllOk-WhenOk P (ok a) h = h
  AllOk-WhenOk P (err e) h = tt
  AllOk-WhenOk P (panic e) h = tt
  AllOk-WhenOk P exhausted h = tt

  definitions_rendered-some :
      (name : Text) (ids : List ℕ) (doc : Option Definitions)
      → Defines registry texts.transform_name ids doc
      → WhenOk
          (λ text. is_some text ≡ any_forced registry ids)
          (definitions_rendered registry texts name doc)
  unfolding definitions_rendered
  definitions_rendered-some name ids none h = sym h
  definitions_rendered-some name ids (some doc) (h, proper, resolve) =
      WhenOk->>= {D = Option Text} (λ _. Unit {0}) _ (texts.definitions_text name doc) _
        (WhenOk-any (texts.definitions_text name doc)) (λ text _. sym h)

  forced_artifact-Adds :
      (f : ProtoFile) (text : Option Text) (m : Module)
      → is_some text ≡ any_forced registry f.messages
      → Adds m
          (if any_forced registry f.messages
            then f.output_path (oas_extension f.package_snake_name) ∷ []
            else [])
          (forced_artifact registry texts f text m)
  unfolding forced_artifact
  forced_artifact-Adds f none m h = rw (sym h) (sym (append-nil (names m.artifacts)))
  forced_artifact-Adds f (some text) m h =
      rw (sym h) (names-add m (f.output_path (oas_extension f.package_snake_name)) text)

  render_forced_messages-Adds :
      (f : ProtoFile) (m : Module)
      → WhenOk
          (Adds m (
            if any_forced registry f.messages
            then f.output_path (oas_extension f.package_snake_name) ∷ []
            else []))
          (render_forced_messages registry texts f m)
  unfolding render_forced_messages render_open_api_without_service
  render_forced_messages-Adds f m =
      WhenOk->>= {D = Module} (λ text. is_some text ≡ any_forced registry f.messages) _
        (render_open_api_without_service registry texts f) _
        (WhenOk->>= {D = Option Text} (Defines registry texts.transform_name f.messages) _
          (build_open_api_without_service registry texts.transform_name f.fully_qualified_name
            f.messages)
          _
          (AllOk-WhenOk (Defines registry texts.transform_name f.messages) _ (
            build_open_api_without_service-Defines registry texts.transform_name
              f.fully_qualified_name f.messages))
          (λ doc h. definitions_rendered-some f.package_name f.messages doc h))
        (λ text h. forced_artifact-Adds f text m h)

  -- the artifact of the Go code, if there is one
  go_names :
      (f : ProtoFile) (services : List FileService) (written : Text × FileImports) (m : Module)
      → WhenOk
          (λ out.
            Adds m
              (if is_empty services then [] else f.output_path (codes ".apigw.go") ∷ [])
              (go_artifact registry texts f out.0 out.1))
          (with_header registry texts f services written m)
  unfolding with_header go_artifact
  go_names f [] written m = sym (append-nil (names m.artifacts))
  go_names f (s ∷ ss) (body, ix) m =
      WhenOk->>= {D = Option Text × Module} (λ _. Unit {0}) _
        (render_header texts.header_text f.name f.package_name ix) _
        (WhenOk-any (render_header texts.header_text f.name f.package_name ix))
        (λ header _. names-add m (f.output_path (codes ".apigw.go")) (header ++ body))

  or_fail-WhenOk :
      {A : Type 0} (P : A → Type 0) (r : Outcome A)
      → WhenOk P r
      → WhenOk P (or_fail registry texts r)
  unfolding or_fail
  or_fail-WhenOk P (ok a) h = h
  or_fail-WhenOk P (err e) h = tt
  or_fail-WhenOk P (panic e) h = tt
  or_fail-WhenOk P exhausted h = tt

  apply_template-Adds :
      (f : ProtoFile) (m : Module)
      → WhenOk
          (λ out. Adds m (generated registry f) (go_artifact registry texts f out.0 out.1))
          (apply_template registry texts f m)
  unfolding apply_template
  apply_template-Adds f m =
      let forced =
        if any_forced registry f.messages
        then f.output_path (oas_extension f.package_snake_name) ∷ []
        else [] in
      let go = if is_empty f.services then [] else f.output_path (codes ".apigw.go") ∷ [] in
      WhenOk->>= {D = Option Text × Module} (λ out. Adds m (service_names f f.services) out.1) _
        (render_services registry texts f f.services [] no_imports m) _
        (render_services-Adds f f.services [] no_imports m)
        (λ (written, m') e.
          WhenOk->>= {D = Option Text × Module} (Adds m' forced) _
            (render_forced_messages registry texts f m') _ (render_forced_messages-Adds f m')
            (λ m'' e'.
              WhenOk-weaken
                (λ (out : Option Text × Module).
                  Adds m'' go (go_artifact registry texts f out.0 out.1))
                _ _
                (λ out e''.
                  e''
                  ∙ ap (λ ns. ns ++ go) (e' ∙ ap (λ ns. ns ++ forced) e)
                  ∙ append_assoc (names m.artifacts ++ service_names f f.services) forced go
                  ∙ append_assoc (names m.artifacts) (service_names f f.services) (forced ++ go))
                (go_names f f.services written m'')))

  process_file-Adds :
      (f : ProtoFile) (m : Module)
      → WhenOk (Adds m (generated registry f)) (process_file registry texts f m)
  unfolding process_file
  process_file-Adds f m =
      WhenOk->>= {D = Module}
        (λ out. Adds m (generated registry f) (go_artifact registry texts f out.0 out.1)) _
        (or_fail registry texts (apply_template registry texts f m)) _
        (or_fail-WhenOk _ (apply_template registry texts f m) (apply_template-Adds f m))
        (λ out h. h)

  -- the files that are generated for several files
  abbrev pub all_generated : List ProtoFile → List Text
  all_generated [] = []
  all_generated (f ∷ fs) = generated registry f ++ all_generated fs

  -- Where `Execute` returns, the files that it has generated are, for the targets in the order in
  -- which it meets them: a document for each service of the file, then one for the file's exposed
  -- messages exactly if it has any, and then the Go code exactly if the file has a service.
  pub execute-names :
      (fs : List ProtoFile) (m : Module)
      → WhenOk
          (λ out. names out ≡ names m.artifacts ++ all_generated fs)
          (execute registry texts fs m)
  unfolding execute
  execute-names [] m = sym (append-nil (names m.artifacts))
  execute-names (f ∷ fs) m =
      WhenOk->>= {D = List Artifact} (Adds m (generated registry f)) _
        (process_file registry texts f m) _ (process_file-Adds f m)
        (λ m' e.
          WhenOk-weaken (λ out. names out ≡ names m'.artifacts ++ all_generated fs) _ _
            (λ out e'.
              e'
              ∙ ap (λ ns. ns ++ all_generated fs) e
              ∙ append_assoc (names m.artifacts) (generated registry f) (all_generated fs))
            (execute-names fs m'))
