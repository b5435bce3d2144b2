-- ===== src/Http/Serve/Pages.antt =====
-- internal/httpapi/embed.go behind the mux: the pages of the site by their addresses.
use dmqtt.Base.{
  ◌≡◌, refl, Bytes, [], ◌∷◌, ◌++◌, none, bytes_eq, Bool, Bool-cases, inl, inr, if◌then◌else◌, arith,
  codes,
}
use dmqtt.Base.Map.{lookup}
use dmqtt.Http.{Request, Server, admin, admin_prefix, route}
use dmqtt.Http.Devices.{trim_prefix}
use dmqtt.Http.Serve.{Surroundings, file_answer, admin_handler, handle, serve}

-- The route of an address below /admin/.
admin_route : (path : Bytes) → route (admin_prefix ++ path) ≡ admin
unfolding route lookup
admin_route path = refl

admin_handler_lem :
    (opens : Bytes → Bool) (path : Bytes)
    → admin_handler opens (admin_prefix ++ path) ≡ (if opens path then path else [])
unfolding admin_handler trim_prefix
admin_handler_lem opens [] = elim (Bool-cases (opens (codes "index.html"))) [
  | inl e ↦ rw e (ground arith)
  | inr e ↦ rw e (ground arith)
]
admin_handler_lem opens (c ∷ path) = elim (Bool-cases (opens (c ∷ path))) [
  | inl e ↦ rw e refl
  | inr e ↦ rw e refl
]

-- An address below /admin/ is answered without a key and changes nothing: with the embedded file of its
-- path, or with the root of the files where no file has it, as for a page of the site that is reloaded.
pub serve-admin :
    (around : Surroundings) (s : Server) (r : Request) (path : Bytes)
    → r.path ≡ admin_prefix ++ path
    → serve around s r ≡ (file_answer (if around.opens path then path else []), s, none)
unfolding serve handle
serve-admin around s r path h = rw (h, admin_route path, admin_handler_lem around.opens path) refl
