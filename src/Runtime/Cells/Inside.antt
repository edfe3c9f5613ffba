-- ===== src/Runtime/Cells/Inside.antt =====
-- The stores of `glm_tbl_set` of src/rt.rs that need no memory.
