-- ===== src/Driver/Tests.antt =====
-- The files that are generated for a file with one service and one exposed message.
use protoc_gen_apigw.Driver.Artifacts.{execute-names, all_generated, names}
use protoc_gen_apigw.Driver.Run.{execute, Module, ProtoFile, Texts}
use protoc_gen_apigw.Base.{◌∷◌, ◌++◌, ◌≡◌, []}
use protoc_gen_apigw.OpenApi.Samples.{shelf_messages, shelf_service, one_name}
use protoc_gen_apigw.Base.Outcome.{ok}
use protoc_gen_apigw.Base.Text.{codes}
use protoc_gen_apigw.Base.Returns.{WhenOk}

abbrev echo_texts : Texts
echo_texts = record {
  service_text = λ c. ok c.server_name;
  header_text = λ c. ok c.source_file;
  document_text = λ name doc. ok name;
  definitions_text = λ name doc. ok name;
  transform_name = λ n. n;
  camel_split = one_name;
}

abbrev shelf_file : ProtoFile
shelf_file = record {
  name = codes "shelf.proto";
  fully_qualified_name = codes ".p";
  package_name = codes "p";
  package_snake_name = codes "p";
  output_path = λ extension. codes "shelf.pb" ++ extension;
  services =
      record {
        name = codes "ShelfService";
        snake_name = codes "shelf_service";
        package_name = codes "p";
        server_name = codes "ShelfServiceServer";
        methods = [];
        api = shelf_service;
      }
      ∷ [];
  messages = 0 ∷ 2 ∷ [];
}

abbrev no_module : Module
no_module = record { mapper = []; artifacts = [] }

execute-names_example :
    WhenOk
      (λ out. names out ≡ [] ++ all_generated shelf_messages echo_texts (shelf_file ∷ []))
      (execute shelf_messages echo_texts (shelf_file ∷ []) no_module)
execute-names_example = execute-names shelf_messages echo_texts (shelf_file ∷ []) no_module
