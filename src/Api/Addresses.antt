-- ===== src/Api/Addresses.antt =====
-- frontend/src/features/terminal/terminal.ts: the requests for terminals and files, with their
-- addresses. `encode` is encodeURIComponent and `print_query` URLSearchParams; both are the
-- platform's.
pub mod Distinct
use Prim.Native.String.{◌++◌}
use oh_my_terminal.Base.{String, String-discrete, Option, none, some, List, [], ◌∷◌, ite}
use oh_my_terminal.Json.{Json, string, obj, field, end}

-- What is passed to `apiJson`, `apiVoid` and `apiRaw`.
pub record Call (R : Type 0) : Type 0 where
  pub path : String
  pub method : Option String
  pub body : Option (Json R)

module _ (print_query : List (String × String) → String) where
  -- The parameters that are not undefined.
  defined : List (String × Option String) → List (String × String)
  defined [] = []
  defined ((key, none) ∷ ps) = defined ps
  defined ((key, some value) ∷ ps) = (key, value) ∷ defined ps

  query : String → String
  query s = ite (String-discrete s "") "" ("?" ++ s)

  unfoldable pub qs : List (String × Option String) → String
  unfolding defined query
  qs params = query (print_query (defined params))

  abbrev pub with_path : String → String → String
  with_path address path = address ++ qs (("path", some path) ∷ [])

  module _ {R : Type 0} where
    abbrev pub fs_list : String → Call R
    fs_list path = record { path = with_path "/api/fs/list" path; method = none; body = none }

    abbrev pub fs_browse : String → Call R
    fs_browse path = record { path = with_path "/api/fs/browse" path; method = none; body = none }

    abbrev pub fs_read : String → Call R
    fs_read path = record { path = with_path "/api/fs/read" path; method = none; body = none }

    abbrev pub fs_write : String → String → Call R
    fs_write path content = record {
      path = with_path "/api/fs/write" path;
      method = some "POST";
      body = some (obj (field "content" (string content) end));
    }

  abbrev pub download_url : String → String
  download_url path = with_path "/api/fs/download" path

module _ (encode : String → String) where
  abbrev pub terminals_path : String → String
  terminals_path ws_id = "/api/workspaces/" ++ (encode ws_id ++ "/terminals")

  abbrev pub terminal_path : String → String → String → String
  terminal_path ws_id tm_id rest =
      "/api/workspaces/" ++ (encode ws_id ++ ("/terminals/" ++ (encode tm_id ++ rest)))

  unfoldable pub ws_path : String → String → String
  ws_path ws_id tm_id = terminal_path ws_id tm_id "/ws"

  module _ {R : Type 0} where
    abbrev pub create_terminal : String → String → Call R
    create_terminal ws_id name = record {
      path = terminals_path ws_id;
      method = some "POST";
      body = some (obj (field "name" (string name) end));
    }

    abbrev pub delete_terminal : String → String → Call R
    delete_terminal ws_id tm_id = record {
      path = terminal_path ws_id tm_id "";
      method = some "DELETE";
      body = none;
    }

    abbrev pub rename_terminal : String → String → String → Call R
    rename_terminal ws_id tm_id name = record {
      path = terminal_path ws_id tm_id "";
      method = some "PATCH";
      body = some (obj (field "name" (string name) end));
    }

    abbrev pub get_attach_cmd : String → String → Call R
    get_attach_cmd ws_id tm_id = record {
      path = terminal_path ws_id tm_id "/attach-cmd";
      method = none;
      body = none;
    }

  -- The body is a form with the files.
  abbrev pub upload_path : String → String → String
  upload_path ws_id tm_id = terminal_path ws_id tm_id "/upload"
