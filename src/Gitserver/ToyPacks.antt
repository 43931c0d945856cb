-- ===== src/Gitserver/ToyPacks.antt =====
-- A small server of packs for the tests.
use git_simulator.Base.{[], ◌∷◌, ◌++◌}
use git_simulator.Core.Errors.{ok}
use git_simulator.Core.Provider.{Bytes}
use git_simulator.Store.Toy.{toy}
use git_simulator.Gitserver.Pack.{PackServer}

abbrev pub packs : PackServer toy
packs = record {
  Session = Bytes;
  Refs = Bytes;
  Request = Bytes;
  new_session = λ storer. ok (1 ∷ []);
  advertised = λ sess. (ok (2 ∷ []), sess);
  set_shallow = λ refs sess. (3 ∷ refs, 3 ∷ sess);
  encode_line = λ line. 35 ∷ [];
  flush_line = 48 ∷ [];
  encode_refs = λ refs. refs;
  decode = λ body. ok body;
  upload = λ sess req. ok (sess ++ req);
}
