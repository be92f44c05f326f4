-- ===== src/Users/Tests.antt =====
-- An example of address normalisation: two spellings of one address.
