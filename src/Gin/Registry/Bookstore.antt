-- ===== src/Gin/Registry/Bookstore.antt =====
-- example/bookstore/v1/bookstore.pb.apigw.go: the methods of the generated description of a service,
-- with their full names from example/bookstore/v1/bookstore_grpc.pb.go.
use protoc_gen_apigw.Base.{[], ◌++◌, ◌∷◌, List}
use protoc_gen_apigw.Base.Text.{codes, Text}
use protoc_gen_apigw.Gin.Registry.{MethodDesc}

abbrev full_name : Text → Text
full_name method = codes "/bookstore.v1.BookstoreService/" ++ method

abbrev described : Text → Text → Text → MethodDesc
described name method route = record { name = full_name name; method = method; route = route }

-- `apigw_desc_BookstoreServiceServer.Methods`
abbrev pub bookstore_methods : List MethodDesc
bookstore_methods =
    described (codes "ListShelves") (codes "GET") (codes "/shelves")
    ∷ described (codes "CreateShelf") (codes "POST") (codes "/shelf")
    ∷ described (codes "DeleteShelf") (codes "DELETE") (codes "/shelves/{shelf}")
    ∷ described (codes "ListGenres") (codes "GET") (codes "/genres")
    ∷ described (codes "CreateGenre") (codes "POST") (codes "/genre")
    ∷ described (codes "GetGenre") (codes "GET") (codes "/genre/{genre_id}")
    ∷ described (codes "DeleteGenre") (codes "DELETE") (codes "/genre/{genre_id}")
    ∷ described (codes "CreateBook") (codes "POST") (codes "/shelves/{shelf}/books")
    ∷ described (codes "GetBook") (codes "GET") (codes "/shelves/{shelf}/books/{book}")
    ∷ described (codes "ListBooks") (codes "GET") (codes "/shelves/{shelf}/books")
    ∷ described (codes "DeleteBook") (codes "DELETE")
        (codes "/shelves/{book.shelf_id}/books/{book.id}")
    ∷ described (codes "UpdateBook") (codes "PATCH")
        (codes "/shelves/{book.shelf_id}/books/{book.id}")
    ∷ described (codes "GetAuthor") (codes "GET") (codes "/authors/{author}")
    ∷ described (codes "RecursiveBook") (codes "GET") (codes "/recursive")
    ∷ []
