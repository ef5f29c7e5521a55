-- ===== src/Storage/Tests.antt =====
-- The contract of the storages at concrete data.
use nkv.Base.{literal, [], ◌∷◌}
use nkv.Storage.{IsStore}
use nkv.Storage.Router.{router_storage}
use nkv.Storage.RouterLaws.{router_view, router_storage-IsStore}
use nkv.Storage.FileModel.{dict_files, dict_view, dict_files-IsLawful}
use nkv.Storage.FileTests.{storage, made_storage}

router_storage-IsStore_example :
    IsStore (router_storage dict_files 3 storage) (router_view dict_view 3 storage)
router_storage-IsStore_example =
    router_storage-IsStore dict_files-IsLawful 3 (literal "/" ∷ literal "data" ∷ []) [] storage
      made_storage
