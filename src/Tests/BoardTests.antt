-- ===== src/Tests/BoardTests.antt =====
-- Tests of stars, comments and templates.
use gg_proxy.Base.{◌≡◌, refl, true, false, none, some, List, [], ◌∷◌, arith, Bool}
use gg_proxy.Base.Dict.{lookup}
use gg_proxy.Domain.{running}
use gg_proxy.Roles.{rank_of}
use gg_proxy.Store.{Sessions}
use gg_proxy.Favorites.{is_favorited}
use gg_proxy.Favorites.Trail.{
  StarRequest, star, unstar, serve_all as star_all, blank, last_word, is_favorited-last_word,
}
use gg_proxy.Comments.{Comment, Caller, Forum}
use gg_proxy.Comments.Moderation.{IsTable, Request, posts, edits, deletes}
use gg_proxy.Comments.Moderation.Story.{serve_all, Story, serve_all-Story}
use gg_proxy.Templates.{
  Caller as Author, Template, NewTemplate, Shelf, list_templates, get_template,
}
use gg_proxy.Templates.Visible.{shows, granted, shows-granted}
use gg_proxy.Templates.Names.{creates, IsUnique, serve_all as shelve_all, serve_all-IsUnique}
use gg_proxy.Tests.Sample.{row_of}

abbrev db : Sessions
db = (1, row_of running none 1) ∷ []

abbrev star_requests : List StarRequest
star_requests =
    star "submitter" 7 1 10 db
    ∷ star "admin" 7 1 11 db
    ∷ unstar "viewer" 7 1
    ∷ unstar "submitter" 8 1
    ∷ star "submitter" 8 2 12 db
    ∷ []

is_favorited-last_word_example :
    is_favorited 1 7 (star_all star_requests blank).table
    ≡ last_word 7 1 (star_all star_requests blank).marks
is_favorited-last_word_example = is_favorited-last_word star_requests 7 1

abbrev comment : Comment
comment = record {
  session_id = 1;
  author = "ada";
  body_markdown = "hello";
  body_html = "hello";
  created_at = 5;
  updated_at = 5;
  deleted_at = none;
}

abbrev forum : Forum
forum = record { table = record { rows = (1, comment) ∷ []; next_id = 2 }; log_up = true; log = [] }

abbrev ada : Caller
ada = record { label = some "ada"; role = "submitter" }

abbrev bob : Caller
bob = record { label = some "bob"; role = "submitter" }

abbrev root : Caller
root = record { label = some "root"; role = "admin" }

abbrev requests : List (Caller × Request)
requests =
    (bob, edits 1 "mine" 6)
    ∷ (root, edits 1 "mine" 7)
    ∷ (ada, edits 1 "hello all" 8)
    ∷ (bob, posts 1 "hi" 9 db)
    ∷ (root, deletes 1 10)
    ∷ (ada, edits 1 "again" 11)
    ∷ []

forum-IsTable : IsTable forum.table
forum-IsTable id h = ground arith

serve_all-Story_example :
    (c' : Comment) × (lookup 1 (serve_all (λ s. s) requests forum).table.rows ≡ some c')
    × Story (λ s. s) requests comment c'
serve_all-Story_example = serve_all-Story (λ s. s) requests forum 1 comment forum-IsTable refl

abbrev template : Bool → Template
template shared = record {
  name = "triage";
  creator = "ada";
  prompt = "look";
  description = none;
  shared = shared;
  tags = none;
  created_at = 5;
  updated_at = 5;
}

abbrev shelf : Shelf
shelf = record {
  table = record { rows = (1, template false) ∷ []; next_id = 2 };
  log_up = true;
  log = [];
}

abbrev reader : Author
reader = record { label = some "bob"; role = "viewer" }

shows-granted_example :
    shows 1 (list_templates reader false 100 shelf) ≡ granted (get_template reader 1 shelf)
unfolding rank_of
shows-granted_example =
    shows-granted reader 100 1 shelf (refl, tt) (omega arith) (omega arith) (omega arith)

abbrev new_template : NewTemplate
new_template = record {
  name = "triage";
  prompt = "look again";
  description = none;
  shared = true;
  tags = none;
}

abbrev writer : Author
writer = record { label = some "ada"; role = "submitter" }

serve_all-IsUnique_example :
    IsUnique
      (shelve_all
        ((writer, creates new_template 6) ∷ (reader, creates new_template 7) ∷ [])
        shelf).table.rows
serve_all-IsUnique_example =
    serve_all-IsUnique ((writer, creates new_template 6) ∷ (reader, creates new_template 7) ∷ [])
      shelf (refl, tt)
