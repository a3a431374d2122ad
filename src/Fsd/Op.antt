-- ===== src/Fsd/Op.antt =====
-- modem/ccci-userspace/fsd/ccci_fsd.c: the operations of the service, the `FS_OP_` numbers, and which of
-- them carry paths.
use android_device_ikko_mind.Common.{
  ℕ, ◌-◌, Bool, true, false, Option, none, List, [], ◌∷◌, ltb, if◌then◌else◌, get_elem?,
}

pub data Op : Type 0 where
  op_open : Op
  op_seek : Op
  op_read : Op
  op_write : Op
  op_close : Op
  op_close_all : Op
  op_create_dir : Op
  op_remove_dir : Op
  op_get_file_size : Op
  op_get_folder_size : Op
  op_rename : Op
  op_move : Op
  op_count : Op
  op_get_disk_info : Op
  op_delete : Op
  op_get_attributes : Op
  op_open_ex : Op
  op_find_first : Op
  op_find_next : Op
  op_find_close : Op
  op_lf : Op
  op_uk : Op
  op_close_all2 : Op
  op_xdelete : Op
  op_cdf : Op
  op_get_drive : Op
  op_get_cluster_size : Op
  op_sdf : Op
  op_otp_write : Op
  op_otp_read : Op
  op_otp_query_length : Op
  op_otp_lock : Op
  op_restore : Op
  op_cmpt_read : Op
  op_bin_region : Op
  op_cmpt_write : Op
  op_get_file_detail : Op

-- In the order of their numbers, from 0x1001 on.
abbrev pub ops : List Op
ops =
    op_open ∷ op_seek ∷ op_read ∷ op_write ∷ op_close ∷ op_close_all ∷ op_create_dir ∷ op_remove_dir
    ∷ op_get_file_size ∷ op_get_folder_size ∷ op_rename ∷ op_move ∷ op_count ∷ op_get_disk_info
    ∷ op_delete ∷ op_get_attributes ∷ op_open_ex ∷ op_find_first ∷ op_find_next ∷ op_find_close
    ∷ op_lf ∷ op_uk ∷ op_close_all2 ∷ op_xdelete ∷ op_cdf ∷ op_get_drive ∷ op_get_cluster_size
    ∷ op_sdf ∷ op_otp_write ∷ op_otp_read ∷ op_otp_query_length ∷ op_otp_lock ∷ op_restore
    ∷ op_cmpt_read ∷ op_bin_region ∷ op_cmpt_write ∷ op_get_file_detail ∷ []

unfoldable pub op_of : ℕ → Option Op
op_of op_id = if ltb op_id 0x1001 then none else get_elem? ops (op_id - 0x1001)

-- Whether the first segment is a path, decoded and resolved before the operation.
unfoldable pub takes_path : Op → Bool
takes_path op_open = true
takes_path op_seek = false
takes_path op_read = false
takes_path op_write = false
takes_path op_close = false
takes_path op_close_all = false
takes_path op_create_dir = true
takes_path op_remove_dir = true
takes_path op_get_file_size = true
takes_path op_get_folder_size = true
takes_path op_rename = true
takes_path op_move = true
takes_path op_count = true
takes_path op_get_disk_info = true
takes_path op_delete = true
takes_path op_get_attributes = true
takes_path op_open_ex = true
takes_path op_find_first = true
takes_path op_find_next = false
takes_path op_find_close = false
takes_path op_lf = false
takes_path op_uk = false
takes_path op_close_all2 = false
takes_path op_xdelete = true
takes_path op_cdf = false
takes_path op_get_drive = false
takes_path op_get_cluster_size = false
takes_path op_sdf = false
takes_path op_otp_write = false
takes_path op_otp_read = false
takes_path op_otp_query_length = false
takes_path op_otp_lock = false
takes_path op_restore = true
takes_path op_cmpt_read = true
takes_path op_bin_region = false
takes_path op_cmpt_write = true
takes_path op_get_file_detail = true

-- Whether the second segment is one too.
unfoldable pub takes_second : Op → Bool
takes_second op_open = false
takes_second op_seek = false
takes_second op_read = false
takes_second op_write = false
takes_second op_close = false
takes_second op_close_all = false
takes_second op_create_dir = false
takes_second op_remove_dir = false
takes_second op_get_file_size = false
takes_second op_get_folder_size = false
takes_second op_rename = true
takes_second op_move = true
takes_second op_count = false
takes_second op_get_disk_info = false
takes_second op_delete = false
takes_second op_get_attributes = false
takes_second op_open_ex = false
takes_second op_find_first = false
takes_second op_find_next = false
takes_second op_find_close = false
takes_second op_lf = false
takes_second op_uk = false
takes_second op_close_all2 = false
takes_second op_xdelete = false
takes_second op_cdf = false
takes_second op_get_drive = false
takes_second op_get_cluster_size = false
takes_second op_sdf = false
takes_second op_otp_write = false
takes_second op_otp_read = false
takes_second op_otp_query_length = false
takes_second op_otp_lock = false
takes_second op_restore = false
takes_second op_cmpt_read = false
takes_second op_bin_region = false
takes_second op_cmpt_write = false
takes_second op_get_file_detail = false
