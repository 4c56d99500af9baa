-- ===== src/Tests/Serving.antt =====
-- Requests through the gate and the routes, on the small state.
use photo_server.Base.{◌≡◌, refl, ap, ok, true, some, [], ◌∷◌, text_eq}
use photo_server.Store.Schema as Schema
use photo_server.Store.Photos.{find_visible, to_meta, photo_meta}
use photo_server.Store.Wf.{Wf}
use photo_server.Server.Serve.Downloads.{Downloads, serve_all-downloads}
use photo_server.Server.Serve.{serve, happen, serve_all}
use photo_server.Server.Serve.Keeping.{serve_all-Wf}
use photo_server.Server.Serve.Outsiders.{is_closed, serve_outsider}
use photo_server.Server.Serve.Looking.{KeepsAlbum, serve-KeepsAlbum}
use photo_server.Blobs.{path, valid_hash}
use photo_server.Server.Upload.Filed.{HasOriginals}
use photo_server.Server.Serve.Originals.{serve_all-HasOriginals}
use photo_server.Server.Exchange.{arrives}
use photo_server.Tests.Data.{lower, lower, converter, hash_a, same, sample_db-Wf, tool, world}
use photo_server.Tests.Requests.{
  exact_mux-IsMux, get_not_post, host, server, chance, shutdown_request, gallery_request,
  session_request, uploads, filed_world, library-IsFiling, meta_a, visits,
}

serve_outsider_example :
    (is_closed (serve host server chance shutdown_request world).0 ≡ true)
    × ((serve host server chance shutdown_request world).1 ≡ world)
serve_outsider_example =
    serve_outsider host server chance shutdown_request world exact_mux-IsMux refl (λ e. cc)
      (λ e. cc)

serve-KeepsAlbum_example : KeepsAlbum world.db (serve host server chance gallery_request world).1.db
serve-KeepsAlbum_example =
    serve-KeepsAlbum host server chance gallery_request world exact_mux-IsMux get_not_post

serve_all-Wf_example :
    Wf
      (serve_all host server
        (arrives chance gallery_request ∷ arrives chance session_request ∷ [])
        world).db
serve_all-Wf_example =
    serve_all-Wf host server (arrives chance gallery_request ∷ arrives chance session_request ∷ [])
      world sample_db-Wf

serve_all-HasOriginals_example :
    let after = serve_all host server uploads filed_world in HasOriginals lower after.files after.db
unfolding valid_hash path
serve_all-HasOriginals_example =
    serve_all-HasOriginals host server library-IsFiling uploads filed_world
      ((refl, refl), ((refl, refl), tt))

shown_after :
    (photo_meta Schema.no_faults hash_a (serve_all host server visits filed_world).db).0
    ≡ ok (some meta_a)
unfolding serve_all happen photo_meta find_visible text_eq
shown_after =
    ap (λ ps. ok (to_meta hash_a (find_visible hash_a ps)))
      (serve-KeepsAlbum host server chance gallery_request filed_world exact_mux-IsMux
        get_not_post).0

serve_all-downloads_example :
    Downloads lower tool
      (some converter)
      same
      hash_a
      (serve_all host server visits filed_world).db
      (serve_all host server visits filed_world).files
      meta_a
unfolding valid_hash path
serve_all-downloads_example =
    serve_all-downloads host server library-IsFiling visits filed_world hash_a meta_a
      ((refl, refl), ((refl, refl), tt)) shown_after
